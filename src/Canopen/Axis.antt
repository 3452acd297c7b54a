-- ===== src/Canopen/Axis.antt =====
-- One axis: src/axis_logic.cpp with include/canopen_hw/axis_logic.hpp, health_counters.hpp and
-- bus_io.hpp. It joins the protocol, the state that the threads share and the bus. The shared state
-- and the bus are there; a cycle returns what it writes to the bus, in order.
pub mod Faults
pub mod Chain
use new_robot.Base.{
  ℕ, ◌+◌, ◌%◌, ◌^◌, Bool, true, false, ◌&&◌, not, ◌==◌, List, [], ◌∷◌, ◌++◌, if◌then◌else◌,
}
use new_robot.Base.Int.{ℤ, pos, eqb_ℤ}
use new_robot.Cia402.Types.{mode_csp, mode_csv, mode_cst}
use new_robot.Canopen.Shared.{
  AxisFeedback, AxisCommand, AxisSafeCommand, AxisIntent, SharedState, new_feedback,
  new_safe_command, get_axis_intent, update_feedback, update_safe_command,
  recompute_all_operational, set_global_fault, set_all_axes_halted_by_fault,
}
use new_robot.Canopen.Protocol.{
  Input, Output, Protocol, new_protocol, process, set_position_lock_threshold,
}

pub record HealthCounters : Type 0 where
  pub pdo_verify_ok : ℕ
  pub pdo_verify_fail : ℕ
  pub pdo_verify_timeout : ℕ
  pub heartbeat_lost : ℕ
  pub heartbeat_recovered : ℕ
  pub fault_reset_attempts : ℕ
  pub emcy_count : ℕ
  pub boot_retries : ℕ

-- The members' initialisers, and Reset.
abbrev pub no_counts : HealthCounters
no_counts = record {
  pdo_verify_ok = 0;
  pdo_verify_fail = 0;
  pdo_verify_timeout = 0;
  heartbeat_lost = 0;
  heartbeat_recovered = 0;
  fault_reset_attempts = 0;
  emcy_count = 0;
  boot_retries = 0;
}

-- uint32_t fetch_add(1).
abbrev pub next32 : ℕ → ℕ
next32 n = (n + 1) % 2 ^ 32

-- The calls of BusIO.
pub data BusWrite : Type 0 where
  controlword : ℕ → BusWrite
  mode_of_operation target_position target_velocity target_torque : ℤ → BusWrite

pub record AxisLogic : Type 0 where
  pub axis_index : ℕ
  pub last_intent_sequence : ℕ
  pub current_intent : AxisIntent
  pub global_fault : Bool
  pub target_mode : ℤ
  pub ros_target_position : ℤ
  pub ros_target_velocity : ℤ
  pub ros_target_torque : ℤ
  pub cmd_valid : Bool
  pub cmd_arm_epoch : ℕ
  pub arm_epoch_cache : ℕ
  pub protocol : Protocol
  pub feedback_cache : AxisFeedback
  pub safe_command_cache : AxisSafeCommand
  pub health : HealthCounters

abbrev pub new_axis_logic : ℕ → AxisLogic
new_axis_logic axis_index = record {
  axis_index = axis_index;
  last_intent_sequence = 0;
  current_intent = AxisIntent.disable;
  global_fault = false;
  target_mode = mode_csp;
  ros_target_position = pos 0;
  ros_target_velocity = pos 0;
  ros_target_torque = pos 0;
  cmd_valid = false;
  cmd_arm_epoch = 0;
  arm_epoch_cache = 0;
  protocol = new_protocol;
  feedback_cache = new_feedback;
  safe_command_cache = new_safe_command;
  health = no_counts;
}

-- What a drive sends in a cycle.
pub record Rpdo : Type 0 where
  pub statusword : ℕ
  pub actual_position : ℤ
  pub actual_velocity : ℤ
  pub actual_torque : ℤ
  pub mode_display : ℤ

unfoldable pub set_intent : AxisIntent → AxisLogic → AxisLogic
set_intent intent a = record a { current_intent = intent }

-- The latch and a new intent are taken over from the shared state.
unfoldable pub take_over : SharedState → AxisLogic → AxisLogic
take_over s a =
    let g = record a { global_fault = s.global_fault } in
    if not (s.intent_sequence == a.last_intent_sequence)
    then record g {
      last_intent_sequence = s.intent_sequence;
      current_intent = get_axis_intent a.axis_index s;
    }
    else g

-- Under a global fault Run counts as Halt.
abbrev pub fault_limited : Bool → AxisIntent → AxisIntent
fault_limited true AxisIntent.run = AxisIntent.halt
fault_limited _ intent = intent

abbrev pub protocol_input : Rpdo → ℕ → AxisLogic → Input
protocol_input r sequence a = record {
  statusword = r.statusword;
  mode_display = r.mode_display;
  actual_position = r.actual_position;
  actual_velocity = r.actual_velocity;
  actual_torque = r.actual_torque;
  intent = fault_limited a.global_fault a.current_intent;
  intent_sequence = sequence;
  target_mode = a.target_mode;
  ros_target_position = a.ros_target_position;
  ros_target_velocity = a.ros_target_velocity;
  ros_target_torque = a.ros_target_torque;
  cmd_valid = a.cmd_valid;
  cmd_arm_epoch = a.cmd_arm_epoch;
}

-- What the protocol's output changes; a fault is only ever set here.
unfoldable pub keep_output : Rpdo → Protocol × Output → AxisLogic → AxisLogic
keep_output r (protocol, out) a = record a {
  protocol = protocol;
  cmd_arm_epoch =
      if a.cmd_valid && a.cmd_arm_epoch == 0 && not (out.arm_epoch == 0)
      then out.arm_epoch
      else a.cmd_arm_epoch;
  arm_epoch_cache = out.arm_epoch;
  feedback_cache = record a.feedback_cache {
    actual_position = r.actual_position;
    actual_velocity = r.actual_velocity;
    actual_torque = r.actual_torque;
    statusword = r.statusword;
    mode_display = r.mode_display;
    state = out.decoded_state;
    is_operational = out.is_operational;
    is_fault = if out.is_fault then true else a.feedback_cache.is_fault;
    arm_epoch = out.arm_epoch;
  };
  safe_command_cache = record {
    safe_target_position = out.safe_target_position;
    safe_target_velocity = out.safe_target_velocity;
    safe_target_torque = out.safe_target_torque;
    safe_mode_of_operation = out.safe_mode;
  };
}

unfoldable pub publish_snapshot : AxisLogic → SharedState → SharedState
publish_snapshot a s =
    update_safe_command a.axis_index a.safe_command_cache
      (update_feedback a.axis_index a.feedback_cache s)

-- The latches when a fault is seen, and the summary.
unfoldable pub latch_fault : Bool → SharedState → SharedState
latch_fault fault s =
    recompute_all_operational
      (if fault then set_all_axes_halted_by_fault true (set_global_fault true s) else s)

abbrev pub bus_writes : Output → List BusWrite
bus_writes out =
    (BusWrite.controlword out.controlword
      ∷ BusWrite.mode_of_operation out.safe_mode
      ∷ BusWrite.target_position out.safe_target_position
      ∷ [])
    ++ (if eqb_ℤ out.safe_mode mode_csv
        then BusWrite.target_velocity out.safe_target_velocity ∷ []
        else [])
    ++ (if eqb_ℤ out.safe_mode mode_cst
        then BusWrite.target_torque out.safe_target_torque ∷ []
        else [])

abbrev pub Cycle : Type 0
Cycle = AxisLogic × SharedState × List BusWrite

unfoldable pub process_rpdo : Rpdo → AxisLogic → SharedState → Cycle
unfolding take_over keep_output publish_snapshot latch_fault
process_rpdo r a s =
    let t = take_over s a in
    let (protocol, out) = process (protocol_input r s.intent_sequence t) t.protocol in
    let a' = keep_output r (protocol, out) t in
    (a', latch_fault a'.feedback_cache.is_fault (publish_snapshot a' s), bus_writes out)

unfoldable pub process_emcy : ℕ → AxisLogic → SharedState → AxisLogic × SharedState
unfolding publish_snapshot
process_emcy eec a s =
    let a' = record a {
      feedback_cache = record a.feedback_cache { last_emcy_eec = eec };
      health = record a.health { emcy_count = next32 a.health.emcy_count };
    } in
    (a', publish_snapshot a' s)

-- A lost heartbeat takes the intent back and counts as a fault; a recovered one clears no fault.
unfoldable pub note_heartbeat : Bool → AxisLogic → AxisLogic
unfolding set_intent
note_heartbeat lost a =
    let f = record a.feedback_cache { heartbeat_lost = lost; is_operational = false } in
    if lost
    then record (set_intent AxisIntent.disable a) {
      feedback_cache = record f { is_fault = true };
      health = record a.health { heartbeat_lost = next32 a.health.heartbeat_lost };
    }
    else record a {
      feedback_cache = f;
      health = record a.health { heartbeat_recovered = next32 a.health.heartbeat_recovered };
    }

unfoldable pub process_heartbeat : Bool → AxisLogic → SharedState → AxisLogic × SharedState
unfolding note_heartbeat publish_snapshot latch_fault
process_heartbeat lost a s =
    let a' = note_heartbeat lost a in (a', latch_fault lost (publish_snapshot a' s))

-- The two fault-reset arguments are not used.
unfoldable pub configure_axis : ℤ → AxisLogic → AxisLogic
configure_axis threshold a = record a {
  protocol = set_position_lock_threshold threshold a.protocol;
}

-- What the three setters of a target share.
unfoldable pub mark_valid : AxisLogic → AxisLogic
mark_valid a = record a {
  cmd_valid = true;
  cmd_arm_epoch = if a.cmd_arm_epoch == 0 then a.arm_epoch_cache else a.cmd_arm_epoch;
}

unfoldable pub set_ros_target_position : ℤ → AxisLogic → AxisLogic
unfolding mark_valid
set_ros_target_position target a = mark_valid (record a { ros_target_position = target })

unfoldable pub set_ros_target_speed : ℤ → AxisLogic → AxisLogic
unfolding mark_valid
set_ros_target_speed target a = mark_valid (record a { ros_target_velocity = target })

unfoldable pub set_ros_target_force : ℤ → AxisLogic → AxisLogic
unfolding mark_valid
set_ros_target_force target a = mark_valid (record a { ros_target_torque = target })

unfoldable pub set_axis_mode : ℤ → AxisLogic → AxisLogic
set_axis_mode mode a = record a { target_mode = mode }

unfoldable pub set_external_command : AxisCommand → AxisLogic → AxisLogic
set_external_command command a = record a {
  target_mode = command.mode_of_operation;
  ros_target_position = command.target_position;
  ros_target_velocity = command.target_velocity;
  ros_target_torque = command.target_torque;
  cmd_valid = command.valid;
  cmd_arm_epoch = command.arm_epoch;
}

unfoldable pub set_axis_global_fault : Bool → AxisLogic → AxisLogic
set_axis_global_fault on a = record a { global_fault = on }

-- RequestEnable and RequestResume.
unfoldable pub request_run : AxisLogic → AxisLogic
unfolding set_intent
request_run a = set_intent AxisIntent.run a

unfoldable pub request_axis_disable : AxisLogic → SharedState → AxisLogic × SharedState
unfolding set_intent publish_snapshot
request_axis_disable a s =
    let a' = record (set_intent AxisIntent.disable a) {
      cmd_valid = false;
      cmd_arm_epoch = 0;
      feedback_cache = record a.feedback_cache { is_operational = false };
    } in
    (a', recompute_all_operational (publish_snapshot a' s))

unfoldable pub request_axis_halt : AxisLogic → AxisLogic
unfolding set_intent
request_axis_halt a = set_intent AxisIntent.halt a

unfoldable pub reset_fault : AxisLogic → AxisLogic
reset_fault a = record a {
  cmd_valid = false;
  cmd_arm_epoch = 0;
  health = record a.health { fault_reset_attempts = 0 };
  feedback_cache = record a.feedback_cache { is_fault = false };
}
