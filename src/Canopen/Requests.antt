-- ===== src/Canopen/Requests.antt =====
-- The requests of src/operational_coordinator.cpp, ComputeIntents and UpdateFromFeedback.
use new_robot.Base.{
  ℕ, zero, suc, ◌+◌, String, Bool, true, false, ◌||◌, not, Option, none, some, List, [], ◌∷◌,
  if◌then◌else◌,
}
use new_robot.Canopen.Shared.{
  AxisFeedback, AxisIntent, SharedState, set_axis_intent, advance_intent_sequence,
  advance_command_sync_sequence, set_global_fault, set_all_axes_halted_by_fault,
}
use new_robot.Canopen.Coordinator.{
  SystemOpMode, mode_eq, Answer, MasterOps, Coordinator, Reply, or_text, master_running,
  master_start, master_reset_all_faults, master_graceful_shutdown, master_stop, axis_text,
  check_healthy_for_motion, Action, do_transition,
}

-- What RequestInit's loop finds: any_fault, and heartbeat_lost so far.
unfoldable pub init_scan : ℕ → Bool → List AxisFeedback → Bool × Bool
init_scan zero lost fbs = (false, lost)
init_scan (suc n) lost [] = (false, lost)
init_scan (suc n) lost (fb ∷ fbs) =
    let rest = init_scan n (fb.heartbeat_lost || lost) fbs in
    if fb.is_fault then (true, lost) else rest

-- SetGlobalFault and SetAllAxesHaltedByFault, which the source always calls together.
abbrev pub latch : Bool → SharedState → SharedState
latch on s = set_all_axes_halted_by_fault on (set_global_fault on s)

-- What clears the latch for a new session.
abbrev pub cleared : SharedState → SharedState
cleared s = advance_command_sync_sequence (latch false s)

unfoldable pub init_check : Action
unfolding init_scan
init_check c =
    let (any_fault, heartbeat_lost) = init_scan c.axis_count false c.shared.feedback in
    if any_fault || c.shared.global_fault
    then (
      record c { mode = SystemOpMode.faulted; shared = latch true c.shared },
      false,
      "safety check failed: fault present after init",
    )
    else if heartbeat_lost
    then (
      record c { mode = SystemOpMode.standby; shared = latch false c.shared },
      false,
      "safety check failed: heartbeat lost",
    )
    else (record c { shared = cleared c.shared }, true, "")

unfoldable pub init_action : MasterOps → Action
unfolding master_start master_running init_check
init_action ops c =
    let (s, started) = master_start ops c.shared in
    let c' = record c { shared = s } in
    if not started
    then (c', false, "master start failed")
    else if not (master_running ops s)
    then (record c' { mode = SystemOpMode.standby }, false, "master not running")
    else init_check c'

unfoldable pub request_init : MasterOps → Coordinator → Coordinator × Reply
unfolding do_transition init_action
request_init ops = do_transition (SystemOpMode.configured ∷ []) SystemOpMode.armed (init_action ops)

-- The action of RequestEnable and RequestRelease.
unfoldable pub motion_action : MasterOps → Action
unfolding master_running check_healthy_for_motion
motion_action ops c =
    if not (master_running ops c.shared)
    then (c, false, "master not running")
    else let (healthy, detail) = check_healthy_for_motion c in (c, healthy, detail)

unfoldable pub request_enable : MasterOps → Coordinator → Coordinator × Reply
unfolding do_transition motion_action
request_enable ops =
    do_transition (SystemOpMode.standby ∷ []) SystemOpMode.armed (motion_action ops)

unfoldable pub disable_action : MasterOps → Action
unfolding master_running
disable_action ops c =
    if master_running ops c.shared then (c, true, "") else (c, false, "master not running")

unfoldable pub request_disable : MasterOps → Coordinator → Coordinator × Reply
unfolding do_transition disable_action
request_disable ops =
    do_transition (SystemOpMode.standby ∷ SystemOpMode.armed ∷ SystemOpMode.running ∷ [])
      SystemOpMode.standby (disable_action ops)

unfoldable pub request_release : MasterOps → Coordinator → Coordinator × Reply
unfolding do_transition motion_action
request_release ops =
    do_transition (SystemOpMode.armed ∷ []) SystemOpMode.running (motion_action ops)

unfoldable pub request_halt : Coordinator → Coordinator × Reply
unfolding do_transition
request_halt = do_transition (SystemOpMode.running ∷ []) SystemOpMode.armed λ c. (c, true, "")

-- The first axis that is not well, and whether its heartbeat is lost.
unfoldable pub first_unhealthy : ℕ → ℕ → List AxisFeedback → Option (ℕ × Bool)
first_unhealthy zero i fbs = none
first_unhealthy (suc n) i [] = none
first_unhealthy (suc n) i (fb ∷ fbs) =
    let rest = first_unhealthy n (i + 1) fbs in
    if fb.is_fault || fb.heartbeat_lost then some (i, fb.heartbeat_lost) else rest

abbrev pub read_feedback : List AxisFeedback → Coordinator → Coordinator
read_feedback fbs c = record c { shared = record c.shared { feedback = fbs } }

abbrev pub timeout_text : ℕ × Bool → String
timeout_text (i, lost) =
    axis_text "recover timeout: axis " i (if lost then " heartbeat_lost" else " fault_active")

-- RequestRecover's wait. `early` are the feedbacks that it reads before the deadline, `last` is the
-- one that it reads when the clock has reached it.
unfoldable pub recover_wait : List (List AxisFeedback) → List AxisFeedback → Action
unfolding first_unhealthy
recover_wait [] last c = elim (first_unhealthy c.axis_count 0 last) [
  | none ↦ (read_feedback last c, true, "")
  | some bad ↦
      (record (read_feedback last c) { mode = SystemOpMode.faulted }, false, timeout_text bad)
]
recover_wait (fbs ∷ early) last c = elim (first_unhealthy c.axis_count 0 fbs) [
  | none ↦ (read_feedback fbs c, true, "")
  | some bad ↦ recover_wait early last c
]

unfoldable pub recover_action : MasterOps → List (List AxisFeedback) → List AxisFeedback → Action
unfolding master_running master_reset_all_faults recover_wait
recover_action ops early last c =
    if not (master_running ops c.shared)
    then (c, false, "master not running")
    else let a = master_reset_all_faults ops c.shared in
      let c' = record c { mode = SystemOpMode.recovering; shared = a.shared } in
      if not a.ok
      then (record c' { mode = SystemOpMode.faulted }, false, or_text a.detail "recover failed")
      else let (w, healthy, detail) = recover_wait early last c' in
        if not healthy
        then (w, false, detail)
        else (record w { shared = cleared w.shared }, true, a.detail)

unfoldable pub request_recover :
    MasterOps → List (List AxisFeedback) → List AxisFeedback → Coordinator → Coordinator × Reply
unfolding do_transition recover_action
request_recover ops early last =
    do_transition (SystemOpMode.faulted ∷ []) SystemOpMode.standby (recover_action ops early last)

abbrev pub all_modes : List SystemOpMode
all_modes =
    SystemOpMode.inactive ∷ SystemOpMode.configured ∷ SystemOpMode.standby ∷ SystemOpMode.armed
    ∷ SystemOpMode.running ∷ SystemOpMode.faulted ∷ SystemOpMode.recovering
    ∷ SystemOpMode.shutting_down ∷ []

-- The graceful part, when the master runs.
abbrev pub graceful : MasterOps → SharedState → Answer
graceful ops s =
    if master_running ops s
    then master_graceful_shutdown ops s
    else record { shared = s; ok = true; detail = "" }

unfoldable pub shutdown_action : MasterOps → Action
unfolding master_running master_graceful_shutdown master_stop
shutdown_action ops c =
    let a = graceful ops c.shared in
    let s = master_stop ops a.shared in
    if not a.ok
    then (
      record c { mode = SystemOpMode.configured; shared = s },
      false,
      or_text a.detail "graceful shutdown timeout",
    )
    else (record c { mode = SystemOpMode.shutting_down; shared = cleared s }, true, a.detail)

unfoldable pub request_shutdown : MasterOps → Coordinator → Coordinator × Reply
unfolding do_transition shutdown_action
request_shutdown ops = do_transition all_modes SystemOpMode.configured (shutdown_action ops)

abbrev pub intent_of : SystemOpMode → AxisIntent
intent_of SystemOpMode.running = AxisIntent.run
intent_of SystemOpMode.armed = AxisIntent.halt
intent_of SystemOpMode.faulted = AxisIntent.halt
intent_of SystemOpMode.recovering = AxisIntent.halt
intent_of _ = AxisIntent.disable

-- The `for` of ComputeIntents, from axis `i` on, for `n` axes.
unfoldable pub set_intents : ℕ → ℕ → AxisIntent → SharedState → SharedState
set_intents zero i intent s = s
set_intents (suc n) i intent s = set_intents n (i + 1) intent (set_axis_intent i intent s)

unfoldable pub compute_intents : Coordinator → Coordinator
unfolding set_intents
compute_intents c = record c {
  shared = advance_intent_sequence (set_intents c.axis_count 0 (intent_of c.mode) c.shared);
}

-- Nothing stands between the read of the mode and compare_exchange_strong here, so it succeeds.
unfoldable pub update_from_feedback : Coordinator → Coordinator
unfolding first_unhealthy
update_from_feedback c =
    if not (mode_eq c.mode SystemOpMode.armed || mode_eq c.mode SystemOpMode.running)
    then c
    else elim (first_unhealthy c.axis_count 0 c.shared.feedback) [
      | none ↦ c
      | some _ ↦ record c { mode = SystemOpMode.faulted; shared = latch true c.shared }
    ]
