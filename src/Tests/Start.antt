-- ===== src/Tests/Start.antt =====
-- Concrete runs of the coordinator and of the start-up sequence.
use new_robot.Base.{◌≡◌, refl, ◌↔◌, inr, true, some, [], ◌∷◌, arith}
use new_robot.Canopen.Shared.{
  AxisFeedback, AxisIntent, SharedState, new_feedback, new_shared_state, get_axis_intent,
}
use new_robot.Canopen.Coordinator.{
  SystemOpMode, Answer, MasterOps, Coordinator, master_running, check_healthy_for_motion,
  first_complaint, concluded, do_transition,
}
use new_robot.Canopen.Requests.{
  motion_action, request_release, request_recover, compute_intents, update_from_feedback,
}
use new_robot.Canopen.Startup.{StartupFlags}
use new_robot.Canopen.Calls.{Request, handle}
use new_robot.Canopen.Calls.Modes.{ModeStep, handle-ModeStep}
use new_robot.Canopen.Calls.Health.{
  MayRun, Outcome, handle-MayRun, request_recover-Outcome, update_from_feedback-faults,
}
use new_robot.Canopen.Calls.Intents.{compute_intents-run}

abbrev agrees : SharedState → Answer
agrees s = record { shared = s; ok = true; detail = "" }

-- A master that starts, runs and resets.
abbrev willing : MasterOps
willing = record {
  start = some agrees;
  running = some (λ s. true);
  reset_all_faults = some agrees;
  graceful_shutdown = some agrees;
  stop = some (λ s. s);
}

abbrev two_axes : SystemOpMode → Coordinator
two_axes m = record { mode = m; shared = new_shared_state 2; axis_count = 2 }

abbrev silent : AxisFeedback
silent = record new_feedback { heartbeat_lost = true }

-- The second axis has lost its heartbeat.
abbrev one_silent : Coordinator
one_silent =
    let c = two_axes SystemOpMode.running in
    record c { shared = record c.shared { feedback = new_feedback ∷ silent ∷ [] } }

abbrev all_flags : StartupFlags
all_flags = record { auto_init = true; auto_enable = true; auto_release = true }

handle-ModeStep_example :
    ModeStep Request.releases SystemOpMode.armed
      (handle willing (two_axes SystemOpMode.armed) Request.releases).mode
handle-ModeStep_example = handle-ModeStep willing (two_axes SystemOpMode.armed) Request.releases

handle-MayRun_example :
    (Request.releases ≡ Request.releases)
    × (SystemOpMode.armed ≡ SystemOpMode.armed)
    × MayRun willing (two_axes SystemOpMode.armed)
unfolding handle request_release do_transition motion_action master_running check_healthy_for_motion
    first_complaint concluded new_shared_state
handle-MayRun_example =
    handle-MayRun willing (two_axes SystemOpMode.armed) Request.releases (λ e. cc e) refl

request_recover-Outcome_example : Outcome (
    request_recover willing
      ((new_feedback ∷ silent ∷ []) ∷ [])
      (new_feedback ∷ new_feedback ∷ [])
      (two_axes SystemOpMode.faulted))
request_recover-Outcome_example =
    request_recover-Outcome willing ((new_feedback ∷ silent ∷ []) ∷ [])
      (new_feedback ∷ new_feedback ∷ []) (two_axes SystemOpMode.faulted) refl

update_from_feedback-faults_example :
    ((update_from_feedback one_silent).mode ≡ SystemOpMode.faulted)
    × ((update_from_feedback one_silent).shared.global_fault ≡ true)
    × ((update_from_feedback one_silent).shared.all_axes_halted_by_fault ≡ true)
update_from_feedback-faults_example =
    update_from_feedback-faults one_silent 1 silent (inr refl) (omega arith) refl refl

compute_intents-run_example :
    (get_axis_intent 1 (compute_intents (two_axes SystemOpMode.running)).shared ≡ AxisIntent.run)
    ↔ (SystemOpMode.running ≡ SystemOpMode.running)
unfolding new_shared_state
compute_intents-run_example =
    compute_intents-run (two_axes SystemOpMode.running) 1 (omega arith) refl refl
