-- ===== src/Tests/Hybrid.antt =====
-- A backend that does what it is asked, one that refuses to release, and the canopen coordinator.
use new_robot.Base.{ℕ, String, ◌∷◌, ◌≡◌, refl, true, false, some, none, Option, List, []}
use new_robot.Canopen.Shared.{AxisFeedback, new_shared_state}
use new_robot.Canopen.Coordinator.{SystemOpMode, MasterOps, Coordinator, Reply}
use new_robot.Hybrid.{
  BackendCall, Backend, hybrid_init, hybrid_release, hybrid_mode, pessimistic_merge, request_both,
}
use new_robot.Hybrid.Sides.{target_of, IsHonest}
use new_robot.Base.Int.{pos}
use new_robot.Base.Names.{Map, insert, add_name}
use new_robot.Hybrid.AutoStart.{
  JointList, StartOptions, run_hybrid_auto_startup, run_configured_init_sequence, resolve_device,
  devices_of, single_device, run_init_sequence, run_hook, start_motion, ensure_hybrid_armed,
  ensure_armed_in, ensure_hybrid_running, ensure_running_in,
}
use new_robot.Hybrid.Started.{startup-Running}
use new_robot.Hybrid.Router.{
  JointTarget, MotorId, JointValue, canopen_target, driver_target, build_joint_targets, add_canopen,
  add_driver, motor_id_of,
}
use new_robot.Hybrid.Router.Targets.{AllAxes, AllDriven, build_joint_targets-routes}
use new_robot.Hybrid.Rollback.{Outcome, request_both-Outcome}

abbrev willing : Backend SystemOpMode
willing = record {
  mode = λ m. m;
  request = λ call m. (target_of call, record { ok = true; message = "" });
}

willing-IsHonest : IsHonest willing
willing-IsHonest call m h = refl

-- It answers false to a release, and stays as it is.
abbrev answer_of : BackendCall → SystemOpMode → SystemOpMode × Reply
answer_of BackendCall.release m = (m, record { ok = false; message = "brake" })
answer_of call m = (target_of call, record { ok = true; message = "" })

abbrev braked : Backend SystemOpMode
braked = record { mode = λ m. m; request = answer_of }

braked-IsHonest : IsHonest braked
braked-IsHonest BackendCall.release m h = absurd (cc h)
braked-IsHonest (BackendCall.init device loopback) m h = refl
braked-IsHonest BackendCall.enable m h = refl
braked-IsHonest BackendCall.disable m h = refl
braked-IsHonest BackendCall.halt m h = refl
braked-IsHonest BackendCall.recover m h = refl
braked-IsHonest (BackendCall.shutdown force) m h = refl

abbrev idle_ops : MasterOps
idle_ops = record {
  start = none;
  running = some (λ s. true);
  reset_all_faults = none;
  graceful_shutdown = none;
  stop = none;
}

abbrev nothing_seen : Coordinator → List (List AxisFeedback) × List AxisFeedback
nothing_seen c = ([], [])

abbrev armed_pair : Coordinator
armed_pair = record { mode = SystemOpMode.armed; shared = new_shared_state 2; axis_count = 2 }

request_both-Outcome_example :
    Outcome willing braked BackendCall.release SystemOpMode.armed SystemOpMode.armed (
      request_both willing braked BackendCall.release "released"
        (SystemOpMode.armed, SystemOpMode.armed))
request_both-Outcome_example =
    request_both-Outcome willing braked willing-IsHonest braked-IsHonest BackendCall.release
      "released" SystemOpMode.armed SystemOpMode.armed

abbrev all_options : StartOptions
all_options = record { auto_init = true; auto_enable = true; auto_release = true }

abbrev one_device : JointList
one_device = JointList.entries (some "can0" ∷ none ∷ some "can0" ∷ [])

startup-Running_example :
    hybrid_mode willing willing
      (run_hybrid_auto_startup willing willing all_options none one_device false
        (SystemOpMode.configured, SystemOpMode.configured)).0
    ≡ SystemOpMode.running
unfolding run_hybrid_auto_startup run_configured_init_sequence resolve_device devices_of
    single_device add_name run_init_sequence run_hook hybrid_init request_both start_motion
    ensure_hybrid_armed ensure_armed_in hybrid_mode pessimistic_merge ensure_hybrid_running
    ensure_running_in hybrid_release
startup-Running_example =
    startup-Running willing willing willing-IsHonest willing-IsHonest all_options none one_device
      false (SystemOpMode.configured, SystemOpMode.configured) refl refl

abbrev number_of : String → Option ℕ
number_of s = some 7

abbrev joint_values : List JointValue
joint_values =
    JointValue.named "base_left" (MotorId.number (pos 3))
    ∷ JointValue.named "base_right" (MotorId.a_text "0x7")
    ∷ []

abbrev arm_joints : List String
arm_joints = "arm_1" ∷ "arm_2" ∷ []

abbrev targets : Map JointTarget
targets =
    ("arm_1", canopen_target 0)
    ∷ ("arm_2", canopen_target 1)
    ∷ ("base_left", driver_target 3)
    ∷ ("base_right", driver_target 7)
    ∷ []

build_joint_targets-routes_example :
    AllAxes 0 arm_joints targets × AllDriven number_of joint_values targets
unfolding build_joint_targets add_canopen add_driver motor_id_of insert
build_joint_targets-routes_example =
    build_joint_targets-routes number_of arm_joints joint_values targets refl
