-- ===== src/Tests/Axis.antt =====
-- An enabled drive on a moving axis, for the concrete runs of the axis logic.
use new_robot.Base.{◌≡◌, refl, ◌⊎◌, inr, true, false, [], ◌∷◌, arith}
use new_robot.Base.Int.{pos}
use new_robot.Cia402.Types.{DriveState, mode_csp}
use new_robot.Cia402.Machine.{decode_state}
use new_robot.Canopen.Shared.{AxisIntent, SharedState, new_shared_state}
use new_robot.Canopen.Coordinator.{SystemOpMode, Coordinator}
use new_robot.Canopen.Requests.{compute_intents, update_from_feedback}
use new_robot.Canopen.Protocol.{Input, Protocol, new_protocol, effective_intent, process}
use new_robot.Canopen.Protocol.Gate.{IsHolding, IsPassing, counted, process-IsHolding}
use new_robot.Canopen.Protocol.Stale.{cycles, stale-IsHolding}
use new_robot.Canopen.Protocol.Release.{with_command, process-with_command}
use new_robot.Canopen.Axis.{AxisLogic, Rpdo, new_axis_logic, process_rpdo, process_heartbeat}
use new_robot.Canopen.Axis.Faults.{
  IsStopped, AxisCall, axis_calls, process_rpdo-IsStopped, lost_heartbeat-latched,
}
use new_robot.Canopen.Axis.Chain.{lost_heartbeat-IsStopped}

-- The drive is enabled, in a session, and released at 990.
abbrev released : Protocol
released = record new_protocol {
  was_operation_enabled = true;
  arm_epoch = 4;
  position_locked = false;
  last_safe_target_position = pos 990;
  last_intent_sequence = 5;
  max_stale_intent_frames = 2;
}

abbrev driven : Input
driven = record {
  statusword = 0x27;
  mode_display = mode_csp;
  actual_position = pos 1000;
  actual_velocity = pos 3;
  actual_torque = pos 1;
  intent = AxisIntent.run;
  intent_sequence = 5;
  target_mode = mode_csp;
  ros_target_position = pos 1010;
  ros_target_velocity = pos 10;
  ros_target_torque = pos 0;
  cmd_valid = true;
  cmd_arm_epoch = 4;
}

abbrev moving_axis : AxisLogic
moving_axis = record (new_axis_logic 1) {
  current_intent = AxisIntent.run;
  cmd_valid = true;
  cmd_arm_epoch = 4;
  ros_target_position = pos 1010;
  protocol = released;
}

abbrev drive_report : Rpdo
drive_report = record {
  statusword = 0x27;
  actual_position = pos 1000;
  actual_velocity = pos 3;
  actual_torque = pos 1;
  mode_display = mode_csp;
}

abbrev two_axes : SharedState
two_axes = record (new_shared_state 2) { intents = AxisIntent.run ∷ AxisIntent.run ∷ [] }

abbrev faulty_pair : SharedState
faulty_pair = record two_axes { global_fault = true }

process-IsHolding_example :
    IsHolding (pos 1000) (process driven released)
    ⊎ ((decode_state 0x27 ≡ DriveState.operation_enabled)
        × (effective_intent AxisIntent.run (counted driven released) ≡ AxisIntent.run)
        × IsPassing driven released)
process-IsHolding_example = process-IsHolding driven released

stale-IsHolding_example :
    IsHolding (pos 1000) (process driven (cycles released (driven ∷ driven ∷ [])))
stale-IsHolding_example =
    stale-IsHolding released (driven ∷ driven ∷ []) driven (omega arith) (omega arith)
      (refl, (refl, tt)) refl

process-with_command_example :
    process (with_command false 0 driven) released ≡ process driven released
process-with_command_example = process-with_command false 0 driven released refl refl

process_rpdo-IsStopped_example :
    IsStopped drive_report (process_rpdo drive_report moving_axis faulty_pair)
process_rpdo-IsStopped_example = process_rpdo-IsStopped drive_report moving_axis faulty_pair refl

lost_heartbeat-latched_example :
    let b =
      axis_calls
        ((AxisCall.heartbeat false, two_axes) ∷ (AxisCall.run_requested, two_axes) ∷ [])
        (process_heartbeat true moving_axis two_axes).0 in
    let c = process_rpdo drive_report b two_axes in
    (c.1.global_fault ≡ true) × (c.1.all_axes_halted_by_fault ≡ true)
lost_heartbeat-latched_example =
    lost_heartbeat-latched moving_axis two_axes two_axes
      ((AxisCall.heartbeat false, two_axes) ∷ (AxisCall.run_requested, two_axes) ∷ []) drive_report

lost_heartbeat-IsStopped_example :
    let c : Coordinator = record {
      mode = SystemOpMode.running;
      shared = (process_heartbeat true moving_axis two_axes).1;
      axis_count = 2;
    } in
    let d = compute_intents (update_from_feedback c) in
    (d.mode ≡ SystemOpMode.faulted)
    × IsStopped drive_report (process_rpdo drive_report (new_axis_logic 0) d.shared)
unfolding new_shared_state
lost_heartbeat-IsStopped_example =
    lost_heartbeat-IsStopped moving_axis (new_axis_logic 0) two_axes SystemOpMode.running 2
      drive_report (omega arith) refl refl (inr refl)
