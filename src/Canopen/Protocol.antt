-- ===== src/Canopen/Protocol.antt =====
-- The translator from intents to controlwords: src/cia402_protocol.cpp and
-- include/canopen_hw/cia402_protocol.hpp. A cycle returns the state and the output. DecodeState and
-- AbsDiff are the same code as the drive machine's, and are taken from there.
pub mod Gate
pub mod Stale
pub mod Release
use Prim.Native.Nat.{bit_or}
use new_robot.Base.{
  ℕ, ◌+◌, ◌-◌, ◌%◌, ◌^◌, Bool, true, false, ◌&&◌, ◌||◌, not, ◌==◌, leb, if◌then◌else◌,
}
use new_robot.Base.Int.{ℤ, pos, ltb_ℤ, leb_ℤ, eqb_ℤ}
use new_robot.Cia402.Types.{
  DriveState, is_enabled, is_faulty, ctrl_shutdown, ctrl_enable_operation, ctrl_disable_voltage,
  ctrl_disable_operation, ctrl_bit_halt, ctrl_bit_interpolation_enable, mode_ip, mode_csp, mode_csv,
  mode_cst,
}
use new_robot.Cia402.Machine.{decode_state, abs_diff, slew, advance_arm_epoch}
use new_robot.Canopen.Shared.{AxisIntent}

pub record Input : Type 0 where
  pub statusword : ℕ
  pub mode_display : ℤ
  pub actual_position : ℤ
  pub actual_velocity : ℤ
  pub actual_torque : ℤ
  pub intent : AxisIntent
  pub intent_sequence : ℕ
  pub target_mode : ℤ
  pub ros_target_position : ℤ
  pub ros_target_velocity : ℤ
  pub ros_target_torque : ℤ
  pub cmd_valid : Bool
  pub cmd_arm_epoch : ℕ

pub record Output : Type 0 where
  pub controlword : ℕ
  pub safe_target_position : ℤ
  pub safe_target_velocity : ℤ
  pub safe_target_torque : ℤ
  pub safe_mode : ℤ
  pub decoded_state : DriveState
  pub is_fault : Bool
  pub is_operational : Bool
  pub arm_epoch_advanced : Bool
  pub arm_epoch : ℕ

abbrev pub new_output : Output
new_output = record {
  controlword = ctrl_disable_voltage;
  safe_target_position = pos 0;
  safe_target_velocity = pos 0;
  safe_target_torque = pos 0;
  safe_mode = mode_csp;
  decoded_state = DriveState.not_ready_to_switch_on;
  is_fault = false;
  is_operational = false;
  arm_epoch_advanced = false;
  arm_epoch = 0;
}

pub record Protocol : Type 0 where
  pub state : DriveState
  pub was_operation_enabled : Bool
  pub prev_was_halt : Bool
  pub arm_epoch : ℕ
  pub position_locked : Bool
  pub position_lock_threshold : ℤ
  pub max_delta_per_cycle : ℤ
  pub last_safe_target_position : ℤ
  pub last_intent_sequence : ℕ
  pub stale_intent_frames : ℕ
  pub max_stale_intent_frames : ℕ

abbrev pub new_protocol : Protocol
new_protocol = record {
  state = DriveState.not_ready_to_switch_on;
  was_operation_enabled = false;
  prev_was_halt = false;
  arm_epoch = 0;
  position_locked = true;
  position_lock_threshold = pos 15000;
  max_delta_per_cycle = pos 2147483647;
  last_safe_target_position = pos 0;
  last_intent_sequence = 0;
  stale_intent_frames = 0;
  max_stale_intent_frames = 20;
}

abbrev positive_or_old : ℤ → ℤ → ℤ
positive_or_old n old = if ltb_ℤ (pos 0) n then n else old

unfoldable pub set_position_lock_threshold : ℤ → Protocol → Protocol
set_position_lock_threshold counts p = record p {
  position_lock_threshold = positive_or_old counts p.position_lock_threshold;
}

unfoldable pub set_max_delta_per_cycle : ℤ → Protocol → Protocol
set_max_delta_per_cycle counts p = record p {
  max_delta_per_cycle = positive_or_old counts p.max_delta_per_cycle;
}

unfoldable pub set_max_stale_intent_frames : ℕ → Protocol → Protocol
set_max_stale_intent_frames frames p = record p { max_stale_intent_frames = frames }

unfoldable pub lock_position : ℤ → Protocol × Output → Protocol × Output
lock_position actual (p, out) = (
  record p { position_locked = true; last_safe_target_position = actual },
  record out {
    safe_target_position = actual;
    safe_target_velocity = pos 0;
    safe_target_torque = pos 0;
  },
)

abbrev pub compose_enable_operation_controlword : ℤ → ℕ
compose_enable_operation_controlword mode =
    if eqb_ℤ mode mode_ip
    then bit_or ctrl_enable_operation ctrl_bit_interpolation_enable
    else ctrl_enable_operation

abbrev pub command_ready : Input → Protocol → Bool
command_ready input p =
    input.cmd_valid && not (input.cmd_arm_epoch == 0) && input.cmd_arm_epoch == p.arm_epoch

-- LockPosition with the output not operational.
unfoldable pub hold_position : Input → Protocol × Output → Protocol × Output
unfolding lock_position
hold_position input (p, out) =
    lock_position input.actual_position (p, record out { is_operational = false })

-- The target of an unlocked axis.
unfoldable pub follow_target : Input → Protocol × Output → Protocol × Output
unfolding slew
follow_target input (p, out) =
    let clamped =
      if ltb_ℤ (pos 0) p.max_delta_per_cycle
      then slew p.max_delta_per_cycle p.last_safe_target_position input.ros_target_position
      else input.ros_target_position in
    (
      record p { last_safe_target_position = clamped },
      record out {
        safe_target_position = clamped;
        safe_target_velocity = input.ros_target_velocity;
        safe_target_torque = input.ros_target_torque;
        is_operational = true;
      },
    )

-- Whether a locked axis is released in this cycle.
unfoldable pub releases_lock : Input → Protocol → Bool
unfolding abs_diff
releases_lock input p =
    command_ready input p
    && leb_ℤ (abs_diff input.ros_target_position input.actual_position) p.position_lock_threshold

unfoldable pub step_position_lock : Input → Protocol × Output → Protocol × Output
unfolding hold_position follow_target releases_lock
step_position_lock input (p, out) =
    if eqb_ℤ input.target_mode mode_csv || eqb_ℤ input.target_mode mode_cst
    then if not (command_ready input p) then hold_position input (p, out) else (
      record p { position_locked = false; last_safe_target_position = input.actual_position },
      record out {
        safe_target_position = input.actual_position;
        safe_target_velocity = input.ros_target_velocity;
        safe_target_torque = input.ros_target_torque;
        is_operational = true;
      },
    )
    else if p.position_locked && not (releases_lock input p)
    then hold_position input (p, out)
    else if p.position_locked
    then follow_target input (
      record p { position_locked = false; last_safe_target_position = input.ros_target_position },
      out,
    )
    else follow_target input (p, out)

-- The cases of `Process` that hold the axis under one controlword.
unfoldable pub held_cycle : ℕ → Bool → Input → Protocol × Output → Protocol × Output
unfolding hold_position
held_cycle word halting input (p, out) =
    let (q, held) = hold_position input (p, record out { controlword = word }) in
    (record q { prev_was_halt = halting }, held)

-- A new session: AdvanceArmEpoch, and the axis is held in this cycle.
unfoldable pub opened_cycle : ℕ → Bool → Input → Protocol × Output → Protocol × Output
unfolding held_cycle advance_arm_epoch
opened_cycle word halting input (p, out) =
    let epoch = advance_arm_epoch p.arm_epoch in
    held_cycle word halting input
      (record p { arm_epoch = epoch }, record out { arm_epoch_advanced = true; arm_epoch = epoch })

unfoldable pub run_cycle : Input → Protocol × Output → Protocol × Output
unfolding step_position_lock
run_cycle input (p, out) =
    let (q, stepped) =
      step_position_lock input
        (p, record out { controlword = compose_enable_operation_controlword input.target_mode }) in
    (record q { prev_was_halt = false }, stepped)

abbrev pub wants_enable : AxisIntent → Bool
wants_enable AxisIntent.disable = false
wants_enable _ = true

abbrev pub wants_halt : AxisIntent → Bool
wants_halt AxisIntent.halt = true
wants_halt _ = false

abbrev pub wants_run : AxisIntent → Bool
wants_run AxisIntent.run = true
wants_run _ = false

abbrev with_halt_bit : AxisIntent → ℕ → ℕ
with_halt_bit intent word = if wants_halt intent then bit_or word ctrl_bit_halt else word

-- The case OperationEnabled.
unfoldable pub enabled_cycle : AxisIntent → Input → Protocol × Output → Protocol × Output
unfolding opened_cycle held_cycle run_cycle
enabled_cycle intent input (p, out) =
    let word = compose_enable_operation_controlword input.target_mode in
    if not p.was_operation_enabled
    then opened_cycle (with_halt_bit intent word) (wants_halt intent) input (p, out)
    else if not (wants_enable intent)
    then held_cycle ctrl_disable_operation false input (p, out)
    else if wants_halt intent || not (wants_run intent)
    then held_cycle (with_halt_bit intent word) (wants_halt intent) input (p, out)
    else if p.prev_was_halt
    then opened_cycle word false input (p, out)
    else run_cycle input (p, out)

-- The `switch` of Process.
unfoldable pub switch_cycle :
    DriveState → AxisIntent → Input → Protocol × Output → Protocol × Output
unfolding held_cycle enabled_cycle
switch_cycle DriveState.not_ready_to_switch_on intent input =
    held_cycle ctrl_disable_voltage false input
switch_cycle DriveState.switch_on_disabled intent input =
    held_cycle (if wants_enable intent then ctrl_shutdown else ctrl_disable_voltage) false input
switch_cycle DriveState.ready_to_switch_on intent input =
    held_cycle (if wants_enable intent then ctrl_enable_operation else ctrl_shutdown) false input
switch_cycle DriveState.switched_on intent input =
    held_cycle (if wants_enable intent then ctrl_enable_operation else ctrl_shutdown) false input
switch_cycle DriveState.operation_enabled intent input = enabled_cycle intent input
switch_cycle DriveState.fault intent input = held_cycle ctrl_disable_voltage false input
switch_cycle DriveState.fault_reaction_active intent input =
    held_cycle ctrl_disable_voltage false input
switch_cycle DriveState.quick_stop_active intent input = held_cycle ctrl_disable_voltage false input

abbrev pub uint32_max : ℕ
uint32_max = 2 ^ 32 - 1

-- How long the intents' sequence number has not moved.
unfoldable pub count_stale : ℕ → Protocol → Protocol
count_stale sequence p =
    if not (sequence == p.last_intent_sequence)
    then record p { last_intent_sequence = sequence; stale_intent_frames = 0 }
    else if p.stale_intent_frames == uint32_max
    then p
    else record p { stale_intent_frames = p.stale_intent_frames + 1 }

-- An intent that has not been renewed for too long is Disable.
abbrev pub effective_intent : AxisIntent → Protocol → AxisIntent
effective_intent intent p =
    if leb p.max_stale_intent_frames p.stale_intent_frames then AxisIntent.disable else intent

-- The output before the `switch`.
abbrev pub first_output : Input → Protocol → Output
first_output input p =
    let s = decode_state input.statusword in
    record new_output {
      decoded_state = s;
      is_fault = is_faulty s;
      arm_epoch = p.arm_epoch;
      safe_mode = input.target_mode;
    }

unfoldable pub process : Input → Protocol → Protocol × Output
unfolding count_stale
process input p =
    let s = decode_state input.statusword in
    let q = count_stale input.intent_sequence (record p { state = s }) in
    let (r, done) =
      switch_cycle s (effective_intent input.intent q) input (q, first_output input p) in
    (record r { was_operation_enabled = is_enabled s }, done)
