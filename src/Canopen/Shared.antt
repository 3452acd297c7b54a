-- ===== src/Canopen/Shared.antt =====
-- The state that the CAN thread and the control loop share: include/canopen_hw/shared_state.hpp and
-- src/shared_state.cpp. Each operation is one section under the mutex.
use new_robot.Base.{
  ℕ, zero, suc, Bool, true, false, ◌||◌, not, Option, none, some, List, [], ◌∷◌, ltb, if◌then◌else◌,
}
use new_robot.Base.Int.{ℤ, pos}
use new_robot.Safety.Types.{next}
use new_robot.Cia402.Types.{DriveState, mode_csp}

pub record AxisFeedback : Type 0 where
  pub actual_position : ℤ
  pub actual_velocity : ℤ
  pub actual_torque : ℤ
  pub statusword : ℕ
  pub mode_display : ℤ
  pub state : DriveState
  pub is_operational : Bool
  pub is_fault : Bool
  pub heartbeat_lost : Bool
  pub last_emcy_eec : ℕ
  pub arm_epoch : ℕ

pub record AxisCommand : Type 0 where
  pub target_position : ℤ
  pub target_velocity : ℤ
  pub target_torque : ℤ
  pub mode_of_operation : ℤ
  pub valid : Bool
  pub arm_epoch : ℕ

pub record AxisSafeCommand : Type 0 where
  pub safe_target_position : ℤ
  pub safe_target_velocity : ℤ
  pub safe_target_torque : ℤ
  pub safe_mode_of_operation : ℤ

pub data AxisIntent : Type 0 where
  disable enable halt run : AxisIntent

-- The members' initialisers.
abbrev pub new_feedback : AxisFeedback
new_feedback = record {
  actual_position = pos 0;
  actual_velocity = pos 0;
  actual_torque = pos 0;
  statusword = 0;
  mode_display = pos 0;
  state = DriveState.not_ready_to_switch_on;
  is_operational = false;
  is_fault = false;
  heartbeat_lost = false;
  last_emcy_eec = 0;
  arm_epoch = 0;
}

abbrev pub new_command : AxisCommand
new_command = record {
  target_position = pos 0;
  target_velocity = pos 0;
  target_torque = pos 0;
  mode_of_operation = mode_csp;
  valid = false;
  arm_epoch = 0;
}

abbrev pub new_safe_command : AxisSafeCommand
new_safe_command = record {
  safe_target_position = pos 0;
  safe_target_velocity = pos 0;
  safe_target_torque = pos 0;
  safe_mode_of_operation = mode_csp;
}

pub record SharedState : Type 0 where
  pub axis_count : ℕ
  pub feedback : List AxisFeedback
  pub commands : List AxisCommand
  pub safe_commands : List AxisSafeCommand
  pub intents : List AxisIntent
  pub all_operational : Bool
  pub global_fault : Bool
  pub all_axes_halted_by_fault : Bool
  pub intent_sequence : ℕ
  pub command_sync_sequence : ℕ
  pub state_change_seq : ℕ

pub record SharedSnapshot : Type 0 where
  pub feedback : List AxisFeedback
  pub commands : List AxisCommand
  pub safe_commands : List AxisSafeCommand
  pub intents : List AxisIntent
  pub intent_sequence : ℕ
  pub command_sync_sequence : ℕ
  pub all_operational : Bool
  pub global_fault : Bool
  pub all_axes_halted_by_fault : Bool

abbrev pub max_axis_count : ℕ
max_axis_count = 16

-- std::clamp to 1 … 16.
abbrev pub clamped : ℕ → ℕ
clamped n = if ltb n 1 then 1 else if ltb max_axis_count n then max_axis_count else n

module _ {ℓ} {A : Type ℓ} where
  -- The std::vector constructor of so many copies, `v[i] = x` and `v[i]`.
  abbrev pub repeated : ℕ → A → List A
  repeated zero x = []
  repeated (suc n) x = x ∷ repeated n x

  abbrev pub set_at : ℕ → A → List A → List A
  set_at i x [] = []
  set_at zero x (y ∷ ys) = x ∷ ys
  set_at (suc i) x (y ∷ ys) = y ∷ set_at i x ys

  abbrev pub at_index : ℕ → List A → Option A
  at_index i [] = none
  at_index zero (y ∷ ys) = some y
  at_index (suc i) (y ∷ ys) = at_index i ys

unfoldable pub new_shared_state : ℕ → SharedState
new_shared_state axis_count =
    let n = clamped axis_count in
    record {
      axis_count = n;
      feedback = repeated n new_feedback;
      commands = repeated n new_command;
      safe_commands = repeated n new_safe_command;
      intents = repeated n AxisIntent.disable;
      all_operational = false;
      global_fault = false;
      all_axes_halted_by_fault = false;
      intent_sequence = 0;
      command_sync_sequence = 0;
      state_change_seq = 0;
    }

abbrev pub is_valid_axis : ℕ → SharedState → Bool
is_valid_axis i s = ltb i s.axis_count

unfoldable pub update_feedback : ℕ → AxisFeedback → SharedState → SharedState
update_feedback i fb s =
    if not (is_valid_axis i s)
    then s
    else record s { feedback = set_at i fb s.feedback; state_change_seq = next s.state_change_seq }

-- The loop of RecomputeAllOperational.
abbrev pub all_axes_operational : List AxisFeedback → Bool
all_axes_operational [] = true
all_axes_operational (fb ∷ fbs) =
    if not fb.is_operational || fb.is_fault then false else all_axes_operational fbs

unfoldable pub recompute_all_operational : SharedState → SharedState
recompute_all_operational s = record s { all_operational = all_axes_operational s.feedback }

unfoldable pub update_command : ℕ → AxisCommand → SharedState → SharedState
update_command i command s =
    if not (is_valid_axis i s) then s else record s { commands = set_at i command s.commands }

-- The `out` pointer is given; none stands for the answer false.
unfoldable pub get_command : ℕ → SharedState → Option AxisCommand
get_command i s = if not (is_valid_axis i s) then none else at_index i s.commands

unfoldable pub update_safe_command : ℕ → AxisSafeCommand → SharedState → SharedState
update_safe_command i safe s =
    if not (is_valid_axis i s)
    then s
    else record s { safe_commands = set_at i safe s.safe_commands }

unfoldable pub set_axis_intent : ℕ → AxisIntent → SharedState → SharedState
set_axis_intent i intent s =
    if not (is_valid_axis i s) then s else record s { intents = set_at i intent s.intents }

unfoldable pub get_axis_intent : ℕ → SharedState → AxisIntent
get_axis_intent i s =
    if not (is_valid_axis i s)
    then AxisIntent.disable
    else elim (at_index i s.intents) [ none ↦ AxisIntent.disable | some x ↦ x ]

unfoldable pub advance_intent_sequence : SharedState → SharedState
advance_intent_sequence s = record s { intent_sequence = next s.intent_sequence }

unfoldable pub advance_command_sync_sequence : SharedState → SharedState
advance_command_sync_sequence s = record s { command_sync_sequence = next s.command_sync_sequence }

unfoldable pub set_global_fault : Bool → SharedState → SharedState
set_global_fault on s = record s { global_fault = on }

unfoldable pub set_all_axes_halted_by_fault : Bool → SharedState → SharedState
set_all_axes_halted_by_fault on s = record s { all_axes_halted_by_fault = on }

unfoldable pub snapshot : SharedState → SharedSnapshot
snapshot s = record {
  feedback = s.feedback;
  commands = s.commands;
  safe_commands = s.safe_commands;
  intents = s.intents;
  intent_sequence = s.intent_sequence;
  command_sync_sequence = s.command_sync_sequence;
  all_operational = s.all_operational;
  global_fault = s.global_fault;
  all_axes_halted_by_fault = s.all_axes_halted_by_fault;
}
