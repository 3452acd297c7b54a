-- ===== src/Hybrid/Sides.antt =====
-- What a backend promises, and the canopen coordinator as a backend that keeps it.
use new_robot.Base.{◌≡◌, refl, String, Bool, true, false, List, [], ◌∷◌, any_of, if-branches}
use new_robot.Canopen.Shared.{AxisFeedback}
use new_robot.Canopen.Coordinator.{
  SystemOpMode, mode_eq, MasterOps, Coordinator, Reply, Action, concluded, do_transition,
}
use new_robot.Canopen.Requests.{
  request_init, request_enable, request_disable, request_release, request_halt, request_recover,
  request_shutdown, init_action, motion_action, disable_action, recover_action, shutdown_action,
  all_modes,
}
use new_robot.Canopen.Calls.Transition.{mode_eq-≡}
use new_robot.Hybrid.{BackendCall, Backend}

-- The mode that a request is for.
abbrev pub target_of : BackendCall → SystemOpMode
target_of (BackendCall.init device loopback) = SystemOpMode.armed
target_of BackendCall.enable = SystemOpMode.armed
target_of BackendCall.disable = SystemOpMode.standby
target_of BackendCall.release = SystemOpMode.running
target_of BackendCall.halt = SystemOpMode.armed
target_of BackendCall.recover = SystemOpMode.standby
target_of (BackendCall.shutdown force) = SystemOpMode.configured

-- A request that succeeds leaves the backend in the mode that it is for.
abbrev pub IsHonest {ℓ} : {S : Type ℓ} → Backend S → Type ℓ
IsHonest {S = S} b =
    (call : BackendCall) (s : S)
    → (b.request call s).1.ok ≡ true
    → b.mode (b.request call s).0 ≡ target_of call

-- OperationalCoordinator of canopen_hw; what its waits for recovery read depends on the state.
unfoldable pub canopen_request :
    MasterOps
    → (Coordinator → List (List AxisFeedback) × List AxisFeedback)
    → BackendCall
    → Coordinator
    → Coordinator × Reply
canopen_request ops seen (BackendCall.init device loopback) c = request_init ops c
canopen_request ops seen BackendCall.enable c = request_enable ops c
canopen_request ops seen BackendCall.disable c = request_disable ops c
canopen_request ops seen BackendCall.release c = request_release ops c
canopen_request ops seen BackendCall.halt c = request_halt c
canopen_request ops seen BackendCall.recover c =
    let (early, last) = seen c in request_recover ops early last c
canopen_request ops seen (BackendCall.shutdown force) c = request_shutdown ops c

abbrev pub canopen_backend :
    MasterOps → (Coordinator → List (List AxisFeedback) × List AxisFeedback) → Backend Coordinator
canopen_backend ops seen = record {
  mode = λ c. c.mode;
  request = λ call c. canopen_request ops seen call c;
}

concluded-honest :
    (to : SystemOpMode) (x : Coordinator × Bool × String)
    → (concluded to x).1.ok ≡ true
    → (concluded to x).0.mode ≡ to
unfolding concluded
concluded-honest to (c, true, d) h = refl
concluded-honest to (c, false, d) h = absurd (cc h)

transition-honest :
    (allowed : List SystemOpMode) (to : SystemOpMode) (action : Action) (c : Coordinator)
    → (do_transition allowed to action c).1.ok ≡ true
    → (do_transition allowed to action c).0.mode ≡ to
unfolding do_transition
transition-honest allowed to action c =
    let H = λ (x : Coordinator × Reply). x.1.ok ≡ true → x.0.mode ≡ to in
    if-branches H (any_of (λ from. mode_eq from c.mode) allowed)
      (λ _. concluded-honest to (action c))
      λ _. if-branches H (mode_eq c.mode to) (λ e _. mode_eq-≡ c.mode to e) (λ _ h. absurd (cc h))

-- Whatever its master and its drives do, a request of the canopen coordinator that succeeds leaves
-- it in the mode that the request is for.
pub canopen_request-mode :
    (ops : MasterOps) (seen : Coordinator → List (List AxisFeedback) × List AxisFeedback)
    (call : BackendCall) (c : Coordinator)
    → (canopen_request ops seen call c).1.ok ≡ true
    → (canopen_request ops seen call c).0.mode ≡ target_of call
unfolding canopen_request request_init request_enable request_disable request_release request_halt
    request_recover request_shutdown
canopen_request-mode ops seen (BackendCall.init device loopback) c h =
    transition-honest (SystemOpMode.configured ∷ []) SystemOpMode.armed (init_action ops) c h
canopen_request-mode ops seen BackendCall.enable c h =
    transition-honest (SystemOpMode.standby ∷ []) SystemOpMode.armed (motion_action ops) c h
canopen_request-mode ops seen BackendCall.disable c h =
    transition-honest (SystemOpMode.standby ∷ SystemOpMode.armed ∷ SystemOpMode.running ∷ [])
      SystemOpMode.standby (disable_action ops) c h
canopen_request-mode ops seen BackendCall.release c h =
    transition-honest (SystemOpMode.armed ∷ []) SystemOpMode.running (motion_action ops) c h
canopen_request-mode ops seen BackendCall.halt c h =
    transition-honest (SystemOpMode.running ∷ []) SystemOpMode.armed (λ x. (x, true, "")) c h
canopen_request-mode ops seen BackendCall.recover c h =
    transition-honest (SystemOpMode.faulted ∷ []) SystemOpMode.standby
      (recover_action ops (seen c).0 (seen c).1) c h
canopen_request-mode ops seen (BackendCall.shutdown force) c h =
    transition-honest all_modes SystemOpMode.configured (shutdown_action ops) c h

pub canopen-IsHonest :
    (ops : MasterOps) (seen : Coordinator → List (List AxisFeedback) × List AxisFeedback)
    → IsHonest (canopen_backend ops seen)
canopen-IsHonest ops seen call c h = canopen_request-mode ops seen call c h
