-- ===== src/Cia402/Machine.antt =====
-- The operations of src/cia402_state_machine.cpp, and the setters of its header.
use Prim.Native.Nat.{bit_and, bit_or}
use new_robot.Base.{ℕ, ◌+◌, ◌%◌, ◌^◌, Bool, true, false, ◌&&◌, ◌||◌, not, ◌==◌, leb, if◌then◌else◌}
use new_robot.Base.Int.{ℤ, pos, pos_part, ltb_ℤ, leb_ℤ, eqb_ℤ, ◌+ℤ◌, ◌-ℤ◌}
use new_robot.Cia402.Types.{
  mask_ready_switch_on, mask_basic, state_not_ready_to_switch_on, state_switch_on_disabled,
  state_ready_to_switch_on, state_switched_on, state_operation_enabled, state_quick_stop_active,
  state_fault_reaction_active, state_fault, ctrl_shutdown, ctrl_enable_operation,
  ctrl_disable_voltage, ctrl_enable_voltage, ctrl_disable_operation, ctrl_fault_reset,
  ctrl_bit_halt, ctrl_bit_interpolation_enable, mode_ip, mode_csv, mode_cst, DriveState, FaultPhase,
  is_enabled, is_faulty, Machine,
}

-- AbsDiff, in int64_t.
unfoldable pub abs_diff : ℤ → ℤ → ℤ
unfolding ◌-ℤ◌
abs_diff a b = let d = a -ℤ b in if ltb_ℤ d (pos 0) then pos 0 -ℤ d else d

abbrev pub positive_or : ℤ → ℕ → ℕ
positive_or n old = if ltb_ℤ (pos 0) n then pos_part n else old

unfoldable pub set_fault_reset_policy : ℤ → ℤ → ℤ → Machine → Machine
set_fault_reset_policy hold wait attempts m = record m {
  hold_low_cycles = positive_or hold m.hold_low_cycles;
  max_wait_recovery_cycles = positive_or wait m.max_wait_recovery_cycles;
  max_fault_resets = positive_or attempts m.max_fault_resets;
}

-- FAULT_REACTION_ACTIVE and FAULT are tested first; an unknown combination counts as not ready.
unfoldable pub decode_state : ℕ → DriveState
decode_state statusword =
    let basic = bit_and statusword mask_basic in
    let ready = bit_and statusword mask_ready_switch_on in
    if basic == state_fault_reaction_active
    then DriveState.fault_reaction_active
    else if basic == state_fault
    then DriveState.fault
    else if basic == state_not_ready_to_switch_on
    then DriveState.not_ready_to_switch_on
    else if basic == state_switch_on_disabled
    then DriveState.switch_on_disabled
    else if ready == state_ready_to_switch_on
    then DriveState.ready_to_switch_on
    else if ready == state_switched_on
    then DriveState.switched_on
    else if ready == state_operation_enabled
    then DriveState.operation_enabled
    else if ready == state_quick_stop_active
    then DriveState.quick_stop_active
    else DriveState.not_ready_to_switch_on

-- uint32_t `++arm_epoch_`, which skips 0.
unfoldable pub advance_arm_epoch : ℕ → ℕ
advance_arm_epoch n = let n' = (n + 1) % 2 ^ 32 in if n' == 0 then 1 else n'

unfoldable pub reset_fault_flow_context : Machine → Machine
reset_fault_flow_context m = record m {
  fault_phase = FaultPhase.idle;
  phase_cycles = 0;
  wait_cycles = 0;
}

unfoldable pub reset_fault_counter : Machine → Machine
unfolding reset_fault_flow_context
reset_fault_counter m = reset_fault_flow_context (record m { fault_reset_count = 0 })

-- The block that the source writes out in each branch: the targets are held at the axis.
unfoldable pub hold_target : ℤ → Machine → Machine
hold_target actual m = record m {
  position_locked = true;
  safe_target = actual;
  safe_target_velocity = pos 0;
  safe_target_torque = pos 0;
}

-- StepFaultReset's `switch`.
unfoldable pub fault_phase_step : FaultPhase → Machine → Machine
fault_phase_step FaultPhase.hold_low m =
    if leb m.hold_low_cycles (m.phase_cycles + 1)
    then record m {
      controlword = ctrl_disable_voltage;
      phase_cycles = 0;
      fault_phase = FaultPhase.send_edge;
    }
    else record m { controlword = ctrl_disable_voltage; phase_cycles = m.phase_cycles + 1 }
fault_phase_step FaultPhase.send_edge m = record m {
  fault_reset_count = m.fault_reset_count + 1;
  controlword = ctrl_fault_reset;
  fault_phase = FaultPhase.wait_recovery;
  wait_cycles = 0;
}
fault_phase_step FaultPhase.wait_recovery m =
    if leb m.max_wait_recovery_cycles (m.wait_cycles + 1)
    then record m {
      controlword = ctrl_disable_voltage;
      fault_phase = FaultPhase.hold_low;
      phase_cycles = 0;
      wait_cycles = 0;
    }
    else record m { controlword = ctrl_disable_voltage; wait_cycles = m.wait_cycles + 1 }
fault_phase_step FaultPhase.permanent_fault m = record m { controlword = ctrl_disable_voltage }
fault_phase_step FaultPhase.idle m = record m { controlword = ctrl_disable_voltage }

abbrev pub begin_fault_phase : FaultPhase → Machine → Machine
begin_fault_phase FaultPhase.idle m = record m {
  fault_phase = FaultPhase.hold_low;
  phase_cycles = 0;
  wait_cycles = 0;
}
begin_fault_phase _ m = m

unfoldable pub step_fault_reset : Machine → Machine
unfolding fault_phase_step
step_fault_reset m =
    if leb m.max_fault_resets m.fault_reset_count
    then record m { fault_phase = FaultPhase.permanent_fault; controlword = ctrl_disable_voltage }
    else let m' = begin_fault_phase m.fault_phase m in fault_phase_step m'.fault_phase m'

-- The target of an unlocked axis: at most `max_delta_per_cycle` from the last one.
unfoldable pub slew : ℤ → ℤ → ℤ → ℤ
unfolding ◌+ℤ◌ ◌-ℤ◌
slew max_delta safe target =
    let diff = target -ℤ safe in
    if ltb_ℤ max_delta diff
    then safe +ℤ max_delta
    else if ltb_ℤ diff (pos 0 -ℤ max_delta)
    then safe -ℤ max_delta
    else target

-- The position mode of StepOperationEnabled.
unfoldable pub follow_position : ℤ → Machine → Machine
unfolding hold_target abs_diff slew
follow_position actual m =
    if m.position_locked
    then if leb_ℤ (abs_diff m.ros_target actual) m.position_lock_threshold
      then record m {
        position_locked = false;
        safe_target = m.ros_target;
        safe_target_velocity = m.ros_target_velocity;
        safe_target_torque = m.ros_target_torque;
        is_operational = true;
      }
      else record (hold_target actual m) { is_operational = false }
    else record m {
      safe_target = slew m.max_delta_per_cycle m.safe_target m.ros_target;
      safe_target_velocity = m.ros_target_velocity;
      safe_target_torque = m.ros_target_torque;
      is_operational = true;
    }

abbrev pub command_mismatch : Machine → Bool
command_mismatch m = not m.cmd_valid || m.cmd_epoch == 0 || not (m.cmd_epoch == m.arm_epoch)

unfoldable pub step_operation_enabled : ℤ → Machine → Machine
unfolding hold_target follow_position
step_operation_enabled actual m =
    if m.global_fault || m.forced_halt_by_fault
    then record (hold_target actual m) { is_operational = false }
    else if m.halt_requested
    then record (hold_target actual m) { is_operational = true }
    else if command_mismatch m
    then record (hold_target actual m) { is_operational = false }
    else if eqb_ℤ m.target_mode mode_csv || eqb_ℤ m.target_mode mode_cst
    then record m {
      position_locked = false;
      safe_target = actual;
      safe_target_velocity = m.ros_target_velocity;
      safe_target_torque = m.ros_target_torque;
      is_operational = true;
    }
    else follow_position actual m

-- The first cycle in OPERATION_ENABLED opens a new session.
unfoldable pub enter_enabled : ℤ → Machine → Machine
unfolding hold_target advance_arm_epoch
enter_enabled actual m = if m.was_operation_enabled then m else record (hold_target actual m) {
  arm_epoch = advance_arm_epoch m.arm_epoch;
  cmd_valid = false;
  cmd_epoch = 0;
}

abbrev pub enabled_controlword : Machine → ℕ
enabled_controlword m =
    let word =
      if eqb_ℤ m.target_mode mode_ip
      then bit_or ctrl_enable_operation ctrl_bit_interpolation_enable
      else ctrl_enable_operation in
    if m.halt_requested then bit_or word ctrl_bit_halt else word

-- The case OperationEnabled of Update's `switch`, from the test of the enable request on.
unfoldable pub enabled_rest : ℤ → Bool → Machine → Machine
unfolding hold_target
enabled_rest actual halt_released w =
    if not w.enable_requested
    then record (hold_target actual w) {
      controlword = ctrl_disable_operation;
      is_operational = false;
    }
    else if w.halt_requested
    then record (hold_target actual w) { is_operational = true }
    else step_operation_enabled actual (if halt_released then hold_target actual w else w)

unfoldable pub enabled_case : ℤ → Bool → Machine → Machine
unfolding enabled_rest
enabled_case actual halt_released m =
    let e = enter_enabled actual m in
    enabled_rest actual halt_released (record e { controlword = enabled_controlword e })

-- A case that holds the axis under one controlword.
unfoldable pub held_case : ℕ → ℤ → Machine → Machine
unfolding hold_target
held_case word actual m = record (hold_target actual m) {
  controlword = word;
  is_operational = false;
}

unfoldable pub fault_case : ℤ → Machine → Machine
unfolding step_fault_reset hold_target
fault_case actual m = record (hold_target actual (step_fault_reset m)) { is_operational = false }

-- Update's `switch`.
unfoldable pub dispatch : DriveState → ℤ → Bool → Bool → Machine → Machine
unfolding held_case enabled_case fault_case
dispatch DriveState.not_ready_to_switch_on actual allowed released m =
    held_case ctrl_disable_voltage actual m
dispatch DriveState.switch_on_disabled actual allowed released m =
    held_case (if allowed then ctrl_shutdown else ctrl_disable_voltage) actual m
dispatch DriveState.ready_to_switch_on actual allowed released m =
    held_case (if allowed then ctrl_enable_operation else ctrl_shutdown) actual m
dispatch DriveState.switched_on actual allowed released m =
    held_case (if allowed then ctrl_enable_operation else ctrl_shutdown) actual m
dispatch DriveState.operation_enabled actual allowed released m = enabled_case actual released m
dispatch DriveState.quick_stop_active actual allowed released m =
    held_case ctrl_enable_voltage actual m
dispatch DriveState.fault_reaction_active actual allowed released m =
    held_case ctrl_disable_voltage actual m
dispatch DriveState.fault actual allowed released m = fault_case actual m

-- What Update does when the drive has left OPERATION_ENABLED.
unfoldable pub leave_enabled : ℤ → Machine → Machine
unfolding hold_target
leave_enabled actual m = record (hold_target actual m) {
  is_operational = false;
  cmd_valid = false;
  cmd_epoch = 0;
  forced_halt_by_fault = false;
}

-- The statusword's part of Update, before the `switch`.
unfoldable pub observe : ℕ → ℤ → Machine → Machine
unfolding reset_fault_flow_context
observe statusword actual m =
    let s = decode_state statusword in
    let o = record m { last_actual_position = actual; state = s; is_fault = is_faulty s } in
    if is_faulty s then o else reset_fault_flow_context o

-- What follows the `switch`.
unfoldable pub conclude : DriveState → ℤ → Machine → Machine
unfolding leave_enabled
conclude prev actual m =
    let w = record m { was_operation_enabled = is_enabled m.state } in
    let l = if is_enabled prev && not (is_enabled w.state) then leave_enabled actual w else w in
    record l { prev_halt_requested = l.halt_requested }

abbrev pub enable_chain_allowed : Machine → Bool
enable_chain_allowed m = m.enable_requested && not m.global_fault && not m.forced_halt_by_fault

-- CiA402StateMachine::Update; mode_display is not read.
unfoldable pub update : ℕ → ℤ → Machine → Machine
update statusword actual m =
    let o = observe statusword actual m in
    conclude m.state actual (
      dispatch o.state actual (enable_chain_allowed o)
        (o.prev_halt_requested && not o.halt_requested) o)

-- The setters.
unfoldable pub set_target_mode : ℤ → Machine → Machine
set_target_mode mode m = record m { target_mode = mode }

unfoldable pub request_enable : Bool → Machine → Machine
request_enable on m = record m { enable_requested = on }

unfoldable pub request_halt : Bool → Machine → Machine
request_halt on m = record m { halt_requested = on }

unfoldable pub set_external_position_command : ℤ → Bool → ℕ → Machine → Machine
set_external_position_command target valid epoch m = record m {
  ros_target = target;
  cmd_valid = valid;
  cmd_epoch = epoch;
}

unfoldable pub set_external_velocity_command : ℤ → Machine → Machine
set_external_velocity_command target m = record m { ros_target_velocity = target }

unfoldable pub set_external_torque_command : ℤ → Machine → Machine
set_external_torque_command target m = record m { ros_target_torque = target }

unfoldable pub set_ros_target : ℤ → Machine → Machine
set_ros_target target m = record m {
  ros_target = target;
  cmd_valid = true;
  cmd_epoch = m.arm_epoch;
}

unfoldable pub set_ros_target_velocity : ℤ → Machine → Machine
set_ros_target_velocity target m = record m {
  ros_target_velocity = target;
  cmd_valid = true;
  cmd_epoch = m.arm_epoch;
}

unfoldable pub set_ros_target_torque : ℤ → Machine → Machine
set_ros_target_torque target m = record m {
  ros_target_torque = target;
  cmd_valid = true;
  cmd_epoch = m.arm_epoch;
}

unfoldable pub set_global_fault : Bool → Machine → Machine
set_global_fault fault m = record m {
  global_fault = fault;
  forced_halt_by_fault = if fault then m.forced_halt_by_fault else false;
}

unfoldable pub set_forced_halt_by_fault : Bool → Machine → Machine
set_forced_halt_by_fault forced m = record m { forced_halt_by_fault = forced }

unfoldable pub set_position_lock_threshold : ℤ → Machine → Machine
set_position_lock_threshold counts m = record m { position_lock_threshold = counts }

unfoldable pub set_max_delta_per_cycle : ℤ → Machine → Machine
set_max_delta_per_cycle counts m = record m {
  max_delta_per_cycle = if ltb_ℤ (pos 0) counts then counts else m.max_delta_per_cycle;
}
