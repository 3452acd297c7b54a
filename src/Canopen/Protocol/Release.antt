-- ===== src/Canopen/Protocol/Release.antt =====
-- What a released axis follows.
use new_robot.Base.{ℕ, ◌≡◌, refl, ◌∙◌, Bool, false, arith}
use new_robot.Cia402.Types.{DriveState}
use new_robot.Cia402.Machine.{decode_state}
use new_robot.Canopen.Shared.{AxisIntent}
use new_robot.Canopen.Protocol.{
  Input, Output, Protocol, step_position_lock, follow_target, hold_position, lock_position,
  held_cycle, opened_cycle, run_cycle, enabled_cycle, switch_cycle, count_stale, process,
  effective_intent, first_output,
}
use new_robot.Canopen.Protocol.Gate.{is_direct, counted}

-- The input with another validity and epoch of its command.
abbrev pub with_command : Bool → ℕ → Input → Input
with_command valid epoch input = record input { cmd_valid = valid; cmd_arm_epoch = epoch }

module _ (valid : Bool) (epoch : ℕ) (input : Input) where
  run_same :
      (p : Protocol) (out : Output)
      → p.position_locked ≡ false
      → is_direct input ≡ false
      → run_cycle (with_command valid epoch input) (p, out) ≡ run_cycle input (p, out)
  unfolding run_cycle step_position_lock follow_target
  run_same p out l d = rw (d, l) refl

  enabled_same :
      (intent : AxisIntent) (p : Protocol) (out : Output)
      → p.position_locked ≡ false
      → is_direct input ≡ false
      → enabled_cycle intent (with_command valid epoch input) (p, out)
        ≡ enabled_cycle intent input (p, out)
  unfolding enabled_cycle opened_cycle held_cycle hold_position lock_position
  enabled_same intent p out l d = rw (run_same p out l d) refl

  switch_same :
      (s : DriveState) (intent : AxisIntent) (p : Protocol) (out : Output)
      → p.position_locked ≡ false
      → is_direct input ≡ false
      → switch_cycle s intent (with_command valid epoch input) (p, out)
        ≡ switch_cycle s intent input (p, out)
  unfolding switch_cycle held_cycle hold_position lock_position
  switch_same DriveState.not_ready_to_switch_on intent p out l d = refl
  switch_same DriveState.switch_on_disabled intent p out l d = refl
  switch_same DriveState.ready_to_switch_on intent p out l d = refl
  switch_same DriveState.switched_on intent p out l d = refl
  switch_same DriveState.operation_enabled intent p out l d = enabled_same intent p out l d
  switch_same DriveState.fault intent p out l d = refl
  switch_same DriveState.fault_reaction_active intent p out l d = refl
  switch_same DriveState.quick_stop_active intent p out l d = refl

counted-locked :
    (input : Input) (p : Protocol) → (counted input p).position_locked ≡ p.position_locked
unfolding count_stale
counted-locked input p = ground arith

-- An axis that is released in a position mode does not look at its command's validity or session
-- again: the cycle is the same for any of them.
pub process-with_command :
    (valid : Bool) (epoch : ℕ) (input : Input) (p : Protocol)
    → p.position_locked ≡ false
    → is_direct input ≡ false
    → process (with_command valid epoch input) p ≡ process input p
unfolding process
process-with_command valid epoch input p l d =
    rw
      (switch_same valid epoch input (decode_state input.statusword)
        (effective_intent input.intent (counted input p)) (counted input p) (first_output input p)
        (counted-locked input p ∙ l) d)
      refl
