-- ===== src/Canopen/Protocol/Gate.antt =====
-- When a cycle of the protocol lets a target through.
use new_robot.Base.{
  ℕ, ◌≡◌, refl, ◌⊎◌, inl, inr, Bool, true, false, ◌||◌, not, Bool-cases, if-branches, arith,
}
use new_robot.Base.Int.{ℤ, pos, eqb_ℤ}
use new_robot.Cia402.Types.{DriveState, mode_csv, mode_cst}
use new_robot.Cia402.Machine.{decode_state}
use new_robot.Canopen.Shared.{AxisIntent}
use new_robot.Canopen.Protocol.{
  Input, Output, Protocol, lock_position, hold_position, releases_lock,
  compose_enable_operation_controlword, first_output, command_ready, step_position_lock, held_cycle,
  opened_cycle, run_cycle, wants_enable, wants_halt, wants_run, enabled_cycle, switch_cycle,
  count_stale, effective_intent, process,
}

-- The axis is held at its own position, and not operational.
pub record IsHolding (actual : ℤ) (r : Protocol × Output) : Type 0 where
  pub locked : r.0.position_locked ≡ true
  pub at_rest : r.1.safe_target_position ≡ actual
  pub no_velocity : r.1.safe_target_velocity ≡ pos 0
  pub no_torque : r.1.safe_target_torque ≡ pos 0
  pub not_operational : r.1.is_operational ≡ false

abbrev pub is_direct : Input → Bool
is_direct input = eqb_ℤ input.target_mode mode_csv || eqb_ℤ input.target_mode mode_cst

-- What lets a target through: the drive was enabled before, no halt has just ended, and the
-- command is ready, or the axis was released before in a position mode.
pub record IsPassing (input : Input) (p : Protocol) : Type 0 where
  pub enabled_before : p.was_operation_enabled ≡ true
  pub no_halt : p.prev_was_halt ≡ false
  pub released :
      (command_ready input p ≡ true) ⊎ ((is_direct input ≡ false) × (p.position_locked ≡ false))

hold-IsHolding :
    (input : Input) (r : Protocol × Output)
    → IsHolding input.actual_position (hold_position input r)
unfolding hold_position lock_position
hold-IsHolding input (p, out) = record {
  locked = refl;
  at_rest = refl;
  no_velocity = refl;
  no_torque = refl;
  not_operational = refl;
}

held_cycle-IsHolding :
    (word : ℕ) (halting : Bool) (input : Input) (r : Protocol × Output)
    → IsHolding input.actual_position (held_cycle word halting input r)
unfolding held_cycle hold_position lock_position
held_cycle-IsHolding word halting input (p, out) = record {
  locked = refl;
  at_rest = refl;
  no_velocity = refl;
  no_torque = refl;
  not_operational = refl;
}

opened_cycle-IsHolding :
    (word : ℕ) (halting : Bool) (input : Input) (r : Protocol × Output)
    → IsHolding input.actual_position (opened_cycle word halting input r)
unfolding opened_cycle held_cycle hold_position lock_position
opened_cycle-IsHolding word halting input (p, out) = record {
  locked = refl;
  at_rest = refl;
  no_velocity = refl;
  no_torque = refl;
  not_operational = refl;
}

step-IsHolding :
    (input : Input) (p : Protocol) (out : Output)
    → IsHolding input.actual_position (step_position_lock input (p, out))
      ⊎ ((command_ready input p ≡ true) ⊎ ((is_direct input ≡ false) × (p.position_locked ≡ false)))
unfolding step_position_lock releases_lock
step-IsHolding input p out = elim (Bool-cases (command_ready input p)) [
  | inl c ↦ inr (inl c)
  | inr c ↦ elim (Bool-cases (is_direct input)) [
    | inl d ↦ inl (rw (d, c, step_position_lock) (hold-IsHolding input (p, out)))
    | inr d ↦ elim (Bool-cases p.position_locked) [
      | inl l ↦ inl (rw (d, c, l, step_position_lock) (hold-IsHolding input (p, out)))
      | inr l ↦ inr (inr (d, l))
    ]
  ]
]

run_cycle-IsHolding :
    (input : Input) (p : Protocol) (out : Output)
    → IsHolding input.actual_position (run_cycle input (p, out))
      ⊎ ((command_ready input p ≡ true) ⊎ ((is_direct input ≡ false) × (p.position_locked ≡ false)))
unfolding run_cycle
run_cycle-IsHolding input p out =
    let word = compose_enable_operation_controlword input.target_mode in
    elim (step-IsHolding input p (record out { controlword = word })) [
      | inl h ↦ inl (record {
        locked = h.locked;
        at_rest = h.at_rest;
        no_velocity = h.no_velocity;
        no_torque = h.no_torque;
        not_operational = h.not_operational;
      })
      | inr r ↦ inr r
    ]

enabled-IsHolding :
    (intent : AxisIntent) (input : Input) (p : Protocol) (out : Output)
    → IsHolding input.actual_position (enabled_cycle intent input (p, out))
      ⊎ ((intent ≡ AxisIntent.run) × IsPassing input p)
unfolding enabled_cycle
enabled-IsHolding intent input p out =
    let Done = λ (r : Protocol × Output).
      IsHolding input.actual_position r ⊎ ((intent ≡ AxisIntent.run) × IsPassing input p) in
    if-branches Done (not p.was_operation_enabled)
      (λ a. inl (opened_cycle-IsHolding _ _ input (p, out)))
      λ a.
        if-branches Done (not (wants_enable intent))
          (λ b. inl (held_cycle-IsHolding _ _ input (p, out)))
          λ b.
            if-branches Done (wants_halt intent || not (wants_run intent))
              (λ c. inl (held_cycle-IsHolding _ _ input (p, out)))
              λ c.
                if-branches Done p.prev_was_halt
                  (λ d. inl (opened_cycle-IsHolding _ _ input (p, out)))
                  λ d. elim (run_cycle-IsHolding input p out) [
                    | inl h ↦ inl h
                    | inr r ↦ inr (
                      runs intent c,
                      record { enabled_before = ground arith; no_halt = d; released = r },
                    )
                  ]
  where
    runs : (i : AxisIntent) → (wants_halt i || not (wants_run i)) ≡ false → i ≡ AxisIntent.run
    runs AxisIntent.run h = refl
    runs AxisIntent.halt h = absurd (cc h)
    runs AxisIntent.enable h = absurd (cc h)
    runs AxisIntent.disable h = absurd (cc h)

switch-IsHolding :
    (s : DriveState) (intent : AxisIntent) (input : Input) (p : Protocol) (out : Output)
    → IsHolding input.actual_position (switch_cycle s intent input (p, out))
      ⊎ ((s ≡ DriveState.operation_enabled) × (intent ≡ AxisIntent.run) × IsPassing input p)
unfolding switch_cycle
switch-IsHolding DriveState.not_ready_to_switch_on intent input p out =
    inl (held_cycle-IsHolding _ _ input (p, out))
switch-IsHolding DriveState.switch_on_disabled intent input p out =
    inl (held_cycle-IsHolding _ _ input (p, out))
switch-IsHolding DriveState.ready_to_switch_on intent input p out =
    inl (held_cycle-IsHolding _ _ input (p, out))
switch-IsHolding DriveState.switched_on intent input p out =
    inl (held_cycle-IsHolding _ _ input (p, out))
switch-IsHolding DriveState.operation_enabled intent input p out =
    elim (enabled-IsHolding intent input p out) [ inl h ↦ inl h | inr (e, g) ↦ inr (refl, e, g) ]
switch-IsHolding DriveState.fault intent input p out = inl (held_cycle-IsHolding _ _ input (p, out))
switch-IsHolding DriveState.fault_reaction_active intent input p out =
    inl (held_cycle-IsHolding _ _ input (p, out))
switch-IsHolding DriveState.quick_stop_active intent input p out =
    inl (held_cycle-IsHolding _ _ input (p, out))

-- The protocol as the `switch` finds it.
abbrev pub counted : Input → Protocol → Protocol
counted input p =
    count_stale input.intent_sequence (record p { state = decode_state input.statusword })

count_stale-IsPassing :
    (input : Input) (p : Protocol) → IsPassing input (counted input p) → IsPassing input p
unfolding count_stale
count_stale-IsPassing input p h = ground arith

-- In every cycle the axis is held at its own position and not operational, unless the drive reports
-- OPERATION_ENABLED, has done so the cycle before, no halt has just ended, the intent is Run and not
-- stale, and the command is ready, or the axis is in a position mode and was released before.
pub process-IsHolding :
    (input : Input) (p : Protocol)
    → IsHolding input.actual_position (process input p)
      ⊎ ((decode_state input.statusword ≡ DriveState.operation_enabled)
          × (effective_intent input.intent (counted input p) ≡ AxisIntent.run)
          × IsPassing input p)
unfolding process
process-IsHolding input p =
    let s = decode_state input.statusword in
    let q = counted input p in
    elim (switch-IsHolding s (effective_intent input.intent q) input q (first_output input p)) [
      | inl h ↦ inl (record {
        locked = h.locked;
        at_rest = h.at_rest;
        no_velocity = h.no_velocity;
        no_torque = h.no_torque;
        not_operational = h.not_operational;
      })
      | inr (e, f, g) ↦ inr (e, f, count_stale-IsPassing input p g)
    ]
