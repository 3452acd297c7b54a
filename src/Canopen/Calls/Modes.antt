-- ===== src/Canopen/Calls/Modes.antt =====
-- The moves of the coordinator's mode.
use new_robot.Base.{
  ◌≡◌, refl, sym, ap, ◌∙◌, ◌⊎◌, inl, inr, true, false, ◌||◌, List, [], ◌∷◌, any_of, Bool-cases,
  Option-cases, arith,
}
use new_robot.Canopen.Shared.{AxisFeedback}
use new_robot.Canopen.Coordinator.{
  SystemOpMode, mode_eq, MasterOps, Coordinator, Action, master_running, master_start,
  do_transition,
}
use new_robot.Canopen.Requests.{
  init_check, init_action, request_init, motion_action, request_enable, disable_action,
  request_disable, request_release, request_halt, first_unhealthy, recover_action, request_recover,
  shutdown_action, request_shutdown, all_modes, compute_intents, update_from_feedback,
}
use new_robot.Canopen.Calls.{Request, handle}
use new_robot.Canopen.Calls.Transition.{concluded-cases, transition-cases, only_from}
use new_robot.Canopen.Calls.Recovery.{recover_action-outcome}

-- The edges of the mode's graph and the request that takes each.
pub data ModeStep : Request → SystemOpMode → SystemOpMode → Type 0 where
  stays : {r : Request} {m : SystemOpMode} → ModeStep r m m
  configured_by : {m : SystemOpMode} → ModeStep Request.configures m SystemOpMode.configured
  starts : ModeStep Request.inits SystemOpMode.configured SystemOpMode.armed
  half_starts : ModeStep Request.inits SystemOpMode.configured SystemOpMode.standby
  fails_start : ModeStep Request.inits SystemOpMode.configured SystemOpMode.faulted
  enabled : ModeStep Request.enables SystemOpMode.standby SystemOpMode.armed
  disarmed : ModeStep Request.disables SystemOpMode.armed SystemOpMode.standby
  stopped : ModeStep Request.disables SystemOpMode.running SystemOpMode.standby
  released : ModeStep Request.releases SystemOpMode.armed SystemOpMode.running
  halted : ModeStep Request.halts SystemOpMode.running SystemOpMode.armed
  recovered :
      {early : List (List AxisFeedback)} {last : List AxisFeedback}
      → ModeStep (Request.recovers early last) SystemOpMode.faulted SystemOpMode.standby
  shut : {m : SystemOpMode} → ModeStep Request.shuts_down m SystemOpMode.configured
  fell_armed : ModeStep Request.updates SystemOpMode.armed SystemOpMode.faulted
  fell_running : ModeStep Request.updates SystemOpMode.running SystemOpMode.faulted

-- A request whose action leaves the mode alone takes its edge or none.
plain-ModeStep :
    (r : Request) (from to : SystemOpMode) (action : Action) (c : Coordinator)
    → ModeStep r from to
    → ((action c).0.mode ≡ c.mode)
    → ModeStep r c.mode (do_transition (from ∷ []) to action c).0.mode
plain-ModeStep r from to action c edge same =
    transition-cases (λ x. ModeStep r c.mode x.mode) to (from ∷ []) action c ModeStep.stays
      (λ e f. rw (← only_from from c.mode e) edge) (λ e f. rw same ModeStep.stays)

pub motion_action-same : (ops : MasterOps) (c : Coordinator) → (motion_action ops c).0 ≡ c
unfolding motion_action
motion_action-same ops c = ground arith

init_check-mode :
    (c : Coordinator)
    → ((init_check c).0.mode ≡ c.mode)
      ⊎ (((init_check c).1 ≡ false)
          × (((init_check c).0.mode ≡ SystemOpMode.faulted)
              ⊎ ((init_check c).0.mode ≡ SystemOpMode.standby)))
unfolding init_check
init_check-mode c = ground arith

init_action-mode :
    (ops : MasterOps) (c : Coordinator)
    → ((init_action ops c).0.mode ≡ c.mode)
      ⊎ (((init_action ops c).1 ≡ false)
          × (((init_action ops c).0.mode ≡ SystemOpMode.faulted)
              ⊎ ((init_action ops c).0.mode ≡ SystemOpMode.standby)))
unfolding init_action
init_action-mode ops c =
    let s = (master_start ops c.shared).0 in
    elim (Bool-cases (master_start ops c.shared).1) [
      | inr e ↦ rw e (inl refl)
      | inl e ↦ elim (Bool-cases (master_running ops s)) [
        | inr f ↦ rw e (rw f (inr (refl, inr refl)))
        | inl f ↦ rw e (rw f (init_check-mode (record c { shared = s })))
      ]
    ]

init-ModeStep :
    (ops : MasterOps) (c : Coordinator) → ModeStep Request.inits c.mode (request_init ops c).0.mode
unfolding request_init
init-ModeStep ops c =
    transition-cases (λ x. ModeStep Request.inits c.mode x.mode) SystemOpMode.armed
      (SystemOpMode.configured ∷ []) (init_action ops) c ModeStep.stays
      (λ e f. rw (← only_from SystemOpMode.configured c.mode e) ModeStep.starts)
      λ e f. elim (init_action-mode ops c) [
        | inl same ↦ rw same ModeStep.stays
        | inr (_, inl g) ↦ rw (g, ← only_from SystemOpMode.configured c.mode e) ModeStep.fails_start
        | inr (_, inr g) ↦ rw (g, ← only_from SystemOpMode.configured c.mode e) ModeStep.half_starts
      ]

disable_from :
    (m : SystemOpMode)
    → any_of
        (λ from. mode_eq from m)
        (SystemOpMode.standby ∷ SystemOpMode.armed ∷ SystemOpMode.running ∷ [])
      ≡ true
    → ModeStep Request.disables m SystemOpMode.standby
disable_from SystemOpMode.standby h = ModeStep.stays
disable_from SystemOpMode.armed h = ModeStep.disarmed
disable_from SystemOpMode.running h = ModeStep.stopped
disable_from SystemOpMode.inactive h = absurd (cc h)
disable_from SystemOpMode.configured h = absurd (cc h)
disable_from SystemOpMode.faulted h = absurd (cc h)
disable_from SystemOpMode.recovering h = absurd (cc h)
disable_from SystemOpMode.shutting_down h = absurd (cc h)

disable_same : (ops : MasterOps) (c : Coordinator) → (disable_action ops c).0 ≡ c
unfolding disable_action
disable_same ops c = ground arith

disable-ModeStep :
    (ops : MasterOps) (c : Coordinator)
    → ModeStep Request.disables c.mode (request_disable ops c).0.mode
unfolding request_disable
disable-ModeStep ops c =
    transition-cases (λ x. ModeStep Request.disables c.mode x.mode) SystemOpMode.standby
      (SystemOpMode.standby ∷ SystemOpMode.armed ∷ SystemOpMode.running ∷ []) (disable_action ops) c
      ModeStep.stays (λ e f. disable_from c.mode e) λ e f. rw (disable_same ops c) ModeStep.stays

recover-ModeStep :
    (ops : MasterOps) (early : List (List AxisFeedback)) (last : List AxisFeedback)
    (c : Coordinator)
    → ModeStep (Request.recovers early last) c.mode (request_recover ops early last c).0.mode
unfolding request_recover
recover-ModeStep ops early last c =
    transition-cases (λ x. ModeStep (Request.recovers early last) c.mode x.mode)
      SystemOpMode.standby (SystemOpMode.faulted ∷ []) (recover_action ops early last) c
      ModeStep.stays (λ e f. rw (← only_from SystemOpMode.faulted c.mode e) ModeStep.recovered)
      λ e f.
        let from = only_from SystemOpMode.faulted c.mode e in
        elim (recover_action-outcome ops early last c (sym from)) [
          | inl g ↦ absurd (cc (sym f ∙ g.0))
          | inr (_, g) ↦ rw (g, ← from) ModeStep.stays
        ]

every_mode : (m : SystemOpMode) → any_of (λ from. mode_eq from m) all_modes ≡ true
every_mode m = ground arith

shutdown_action-mode :
    (ops : MasterOps) (c : Coordinator)
    → (shutdown_action ops c).1 ≡ false
    → (shutdown_action ops c).0.mode ≡ SystemOpMode.configured
unfolding shutdown_action
shutdown_action-mode ops c h = ground arith

-- Whatever the mode and whatever the master answers.
shutdown-mode :
    (ops : MasterOps) (c : Coordinator) → (request_shutdown ops c).0.mode ≡ SystemOpMode.configured
unfolding request_shutdown do_transition
shutdown-mode ops c = rw (every_mode c.mode) (
    concluded-cases (λ x. x.mode ≡ SystemOpMode.configured) SystemOpMode.configured
      (shutdown_action ops c) (λ e. refl) (shutdown_action-mode ops c))

halt-ModeStep : (c : Coordinator) → ModeStep Request.halts c.mode (request_halt c).0.mode
unfolding request_halt
halt-ModeStep c =
    plain-ModeStep Request.halts SystemOpMode.running SystemOpMode.armed (λ x. (x, true, "")) c
      ModeStep.halted refl

moves-ModeStep :
    (m : SystemOpMode)
    → (mode_eq m SystemOpMode.armed || mode_eq m SystemOpMode.running) ≡ true
    → ModeStep Request.updates m SystemOpMode.faulted
moves-ModeStep SystemOpMode.armed h = ModeStep.fell_armed
moves-ModeStep SystemOpMode.running h = ModeStep.fell_running
moves-ModeStep SystemOpMode.standby h = absurd (cc h)
moves-ModeStep SystemOpMode.inactive h = absurd (cc h)
moves-ModeStep SystemOpMode.configured h = absurd (cc h)
moves-ModeStep SystemOpMode.faulted h = absurd (cc h)
moves-ModeStep SystemOpMode.recovering h = absurd (cc h)
moves-ModeStep SystemOpMode.shutting_down h = absurd (cc h)

updates-ModeStep : (c : Coordinator) → ModeStep Request.updates c.mode (update_from_feedback c).mode
unfolding update_from_feedback
updates-ModeStep c =
    elim (Bool-cases (mode_eq c.mode SystemOpMode.armed || mode_eq c.mode SystemOpMode.running)) [
      | inr e ↦ rw e ModeStep.stays
      | inl e ↦ elim (Option-cases (first_unhealthy c.axis_count 0 c.shared.feedback)) [
        | inl f ↦ rw e (rw f ModeStep.stays)
        | inr (_, f) ↦ rw e (rw f (moves-ModeStep c.mode e))
      ]
    ]

-- Every call moves the mode along the edges that it owns, or not at all, whatever the master and
-- the drives answer.
pub handle-ModeStep :
    (ops : MasterOps) (c : Coordinator) (r : Request) → ModeStep r c.mode (handle ops c r).mode
unfolding handle request_enable request_release compute_intents
handle-ModeStep ops c Request.configures = ModeStep.configured_by
handle-ModeStep ops c Request.inits = init-ModeStep ops c
handle-ModeStep ops c Request.enables =
    plain-ModeStep _ _ _ (motion_action ops) c ModeStep.enabled
      (ap (λ (x : Coordinator). x.mode) (motion_action-same ops c))
handle-ModeStep ops c Request.disables = disable-ModeStep ops c
handle-ModeStep ops c Request.releases =
    plain-ModeStep _ _ _ (motion_action ops) c ModeStep.released
      (ap (λ (x : Coordinator). x.mode) (motion_action-same ops c))
handle-ModeStep ops c Request.halts = halt-ModeStep c
handle-ModeStep ops c Request.shuts_down = rw (shutdown-mode ops c) ModeStep.shut
handle-ModeStep ops c (Request.recovers early last) = recover-ModeStep ops early last c
handle-ModeStep ops c Request.computes_intents = ModeStep.stays
handle-ModeStep ops c Request.updates = updates-ModeStep c
handle-ModeStep ops c (Request.delivers i fb) = ModeStep.stays
