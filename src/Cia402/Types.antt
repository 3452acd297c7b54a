-- ===== src/Cia402/Types.antt =====
-- Codes and state of the machine: include/canopen_hw/cia402_defs.hpp and the members of
-- CiA402StateMachine in include/canopen_hw/cia402_state_machine.hpp.
use new_robot.Base.{ℕ, Bool, true, false}
use new_robot.Base.Int.{ℤ, pos}

-- Masks and values of the statusword, and the controlwords.
abbrev pub mask_ready_switch_on : ℕ
mask_ready_switch_on = 0x6F

abbrev pub mask_basic : ℕ
mask_basic = 0x4F

abbrev pub state_not_ready_to_switch_on : ℕ
state_not_ready_to_switch_on = 0x00

abbrev pub state_switch_on_disabled : ℕ
state_switch_on_disabled = 0x40

abbrev pub state_ready_to_switch_on : ℕ
state_ready_to_switch_on = 0x21

abbrev pub state_switched_on : ℕ
state_switched_on = 0x23

abbrev pub state_operation_enabled : ℕ
state_operation_enabled = 0x27

abbrev pub state_quick_stop_active : ℕ
state_quick_stop_active = 0x07

abbrev pub state_fault_reaction_active : ℕ
state_fault_reaction_active = 0x0F

abbrev pub state_fault : ℕ
state_fault = 0x08

abbrev pub ctrl_shutdown : ℕ
ctrl_shutdown = 0x06

abbrev pub ctrl_enable_operation : ℕ
ctrl_enable_operation = 0x0F

abbrev pub ctrl_disable_voltage : ℕ
ctrl_disable_voltage = 0x00

abbrev pub ctrl_enable_voltage : ℕ
ctrl_enable_voltage = 0x02

abbrev pub ctrl_disable_operation : ℕ
ctrl_disable_operation = 0x07

abbrev pub ctrl_fault_reset : ℕ
ctrl_fault_reset = 0x80

abbrev pub ctrl_bit_halt : ℕ
ctrl_bit_halt = 0x100

abbrev pub ctrl_bit_interpolation_enable : ℕ
ctrl_bit_interpolation_enable = 0x10

-- Modes of operation, int8_t.
abbrev pub mode_ip : ℤ
mode_ip = pos 7

abbrev pub mode_csp : ℤ
mode_csp = pos 8

abbrev pub mode_csv : ℤ
mode_csv = pos 9

abbrev pub mode_cst : ℤ
mode_cst = pos 10

pub data DriveState : Type 0 where
  not_ready_to_switch_on switch_on_disabled ready_to_switch_on switched_on : DriveState
  operation_enabled quick_stop_active fault_reaction_active fault : DriveState

pub data FaultPhase : Type 0 where
  idle hold_low send_edge wait_recovery permanent_fault : FaultPhase

abbrev pub is_enabled : DriveState → Bool
is_enabled DriveState.operation_enabled = true
is_enabled _ = false

abbrev pub is_faulty : DriveState → Bool
is_faulty DriveState.fault = true
is_faulty DriveState.fault_reaction_active = true
is_faulty _ = false

-- Positions, velocities and torques are int32_t and int16_t values; the epochs are uint32_t, the
-- counters int.
pub record Machine : Type 0 where
  pub controlword : ℕ
  pub state : DriveState
  pub enable_requested : Bool
  pub halt_requested : Bool
  pub prev_halt_requested : Bool
  pub target_mode : ℤ
  pub is_operational : Bool
  pub is_fault : Bool
  pub was_operation_enabled : Bool
  pub position_locked : Bool
  pub position_lock_threshold : ℤ
  pub ros_target : ℤ
  pub safe_target : ℤ
  pub last_actual_position : ℤ
  pub cmd_valid : Bool
  pub cmd_epoch : ℕ
  pub arm_epoch : ℕ
  pub max_delta_per_cycle : ℤ
  pub global_fault : Bool
  pub forced_halt_by_fault : Bool
  pub ros_target_velocity : ℤ
  pub ros_target_torque : ℤ
  pub safe_target_velocity : ℤ
  pub safe_target_torque : ℤ
  pub fault_phase : FaultPhase
  pub phase_cycles : ℕ
  pub wait_cycles : ℕ
  pub fault_reset_count : ℕ
  pub max_fault_resets : ℕ
  pub hold_low_cycles : ℕ
  pub max_wait_recovery_cycles : ℕ

-- The members' initialisers.
unfoldable pub new_machine : Machine
new_machine = record {
  controlword = ctrl_disable_voltage;
  state = DriveState.not_ready_to_switch_on;
  enable_requested = false;
  halt_requested = false;
  prev_halt_requested = false;
  target_mode = mode_csp;
  is_operational = false;
  is_fault = false;
  was_operation_enabled = false;
  position_locked = true;
  position_lock_threshold = pos 15000;
  ros_target = pos 0;
  safe_target = pos 0;
  last_actual_position = pos 0;
  cmd_valid = false;
  cmd_epoch = 0;
  arm_epoch = 0;
  max_delta_per_cycle = pos 2147483647;
  global_fault = false;
  forced_halt_by_fault = false;
  ros_target_velocity = pos 0;
  ros_target_torque = pos 0;
  safe_target_velocity = pos 0;
  safe_target_torque = pos 0;
  fault_phase = FaultPhase.idle;
  phase_cycles = 0;
  wait_cycles = 0;
  fault_reset_count = 0;
  max_fault_resets = 3;
  hold_low_cycles = 5;
  max_wait_recovery_cycles = 100;
}
