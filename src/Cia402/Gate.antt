-- ===== src/Cia402/Gate.antt =====
-- A command reaches the drive only through every gate; otherwise the axis is held where it is.
use new_robot.Base.{
  ℕ, ◌≡◌, refl, sym, ◌∙◌, ◌≢◌, ◌⊎◌, inl, inr, Bool, true, false, ◌&&◌, ◌||◌, not, arith,
  if◌then◌else◌, Bool-cases,
}
use new_robot.Base.Int.{ℤ, pos}
use new_robot.Cia402.Types.{DriveState, Machine}
use new_robot.Cia402.Machine.{
  decode_state, hold_target, step_operation_enabled, enter_enabled, enabled_rest,
  enabled_controlword, enabled_case, held_case, fault_case, dispatch, observe, conclude,
  enable_chain_allowed, update, command_mismatch,
}

-- The targets are held at the axis's own position.
pub record IsHeld (actual : ℤ) (m : Machine) : Type 0 where
  pub locked : m.position_locked ≡ true
  pub at_rest : m.safe_target ≡ actual
  pub no_velocity : m.safe_target_velocity ≡ pos 0
  pub no_torque : m.safe_target_torque ≡ pos 0

-- What lets a command through.
pub record IsOpen (m : Machine) : Type 0 where
  pub enabled_before : m.was_operation_enabled ≡ true
  pub enable : m.enable_requested ≡ true
  pub no_halt : m.halt_requested ≡ false
  pub no_global_fault : m.global_fault ≡ false
  pub no_forced_halt : m.forced_halt_by_fault ≡ false
  pub valid : m.cmd_valid ≡ true
  pub session : m.cmd_epoch ≡ m.arm_epoch
  pub in_session : m.cmd_epoch ≢ 0

by_holding :
    {actual : ℤ} {m : Machine}
    → m.position_locked ≡ true
    → m.safe_target ≡ actual
    → m.safe_target_velocity ≡ pos 0
    → m.safe_target_torque ≡ pos 0
    → IsHeld actual m
by_holding l r v t = record { locked = l; at_rest = r; no_velocity = v; no_torque = t }

step-IsHeld :
    (actual : ℤ) (m : Machine)
    → IsHeld actual (step_operation_enabled actual m)
      ⊎ ((m.global_fault ≡ false)
          × (m.forced_halt_by_fault ≡ false)
          × (m.halt_requested ≡ false)
          × (command_mismatch m ≡ false))
unfolding step_operation_enabled
step-IsHeld actual m = elim (Bool-cases (m.global_fault || m.forced_halt_by_fault)) [
  | inl e ↦ inl (rw e (by_holding refl refl refl refl))
  | inr e ↦ elim (Bool-cases m.halt_requested) [
    | inl h ↦ inl (rw e (rw h (by_holding refl refl refl refl)))
    | inr h ↦ elim (Bool-cases (command_mismatch m)) [
      | inl c ↦ inl (rw e (rw h (rw c (by_holding refl refl refl refl))))
      | inr c ↦ inr (ground arith, ground arith, h, c)
    ]
  ]
]

held_case-IsHeld : (word : ℕ) (actual : ℤ) (m : Machine) → IsHeld actual (held_case word actual m)
unfolding held_case
held_case-IsHeld word actual m = by_holding refl refl refl refl

fault_case-IsHeld : (actual : ℤ) (m : Machine) → IsHeld actual (fault_case actual m)
unfolding fault_case
fault_case-IsHeld actual m = by_holding refl refl refl refl

conclude-IsHeld :
    (prev : DriveState) (actual : ℤ) (m : Machine)
    → IsHeld actual m
    → IsHeld actual (conclude prev actual m)
unfolding conclude
conclude-IsHeld prev actual m h = ground arith

abbrev Passes : Machine → Type 0
Passes w =
    (w.enable_requested ≡ true)
    × (w.halt_requested ≡ false)
    × (w.global_fault ≡ false)
    × (w.forced_halt_by_fault ≡ false)
    × (command_mismatch w ≡ false)

-- The shapes of the tests in `enabled_rest`.
three_ways {ℓ} :
    (P : Machine → Type ℓ) (a b : Bool) (x y z : Machine)
    → P x
    → P y
    → (a ≡ true → b ≡ false → P z)
    → P (if not a then x else if b then y else z)
three_ways P false b x y z p q r = p
three_ways P true true x y z p q r = q
three_ways P true false x y z p q r = r refl refl

two_ways {ℓ} :
    (P : Machine → Type ℓ) (b : Bool) (x y : Machine) → P x → P y → P (if b then x else y)
two_ways P true x y p q = p
two_ways P false x y p q = q

rest-IsHeld :
    (actual : ℤ) (released : Bool) (w : Machine)
    → IsHeld actual (enabled_rest actual released w) ⊎ Passes w
unfolding enabled_rest
rest-IsHeld actual released w =
    three_ways (λ x. IsHeld actual x ⊎ Passes w) w.enable_requested w.halt_requested _ _ _
      (inl (by_holding refl refl refl refl)) (inl (by_holding refl refl refl refl))
      λ e h.
        two_ways (λ x. IsHeld actual (step_operation_enabled actual x) ⊎ Passes w) released
          (hold_target actual w) w (passing e (step-IsHeld actual (hold_target actual w)))
          (passing e (step-IsHeld actual w))
  where
    passing :
        {A : Type 0}
        → w.enable_requested ≡ true
        → A
          ⊎ ((w.global_fault ≡ false)
              × (w.forced_halt_by_fault ≡ false)
              × (w.halt_requested ≡ false)
              × (command_mismatch w ≡ false))
        → A ⊎ Passes w
    passing e (inl held) = inl held
    passing e (inr (g, f, h, c)) = inr (e, h, g, f, c)

Passes-IsOpen : (m : Machine) → m.was_operation_enabled ≡ true → Passes m → IsOpen m
Passes-IsOpen m w p = ground arith

-- On the first cycle the command is void, so nothing passes.
fresh_session :
    (actual : ℤ) (m : Machine) → m.was_operation_enabled ≡ false → ¬ Passes (enter_enabled actual m)
unfolding enter_enabled
fresh_session actual m new p = cc (rw new at p.4)

entered :
    (actual : ℤ) (m : Machine)
    → m.was_operation_enabled ≡ true
    → Passes (enter_enabled actual m)
    → Passes m
unfolding enter_enabled
entered actual m was p = rw was at p

enabled-IsHeld :
    (actual : ℤ) (released : Bool) (m : Machine)
    → IsHeld actual (enabled_case actual released m) ⊎ IsOpen m
unfolding enabled_case
enabled-IsHeld actual released m =
    let e = enter_enabled actual m in
    let w = record e { controlword = enabled_controlword e } in
    elim (rest-IsHeld actual released w) [
      | inl held ↦ inl held
      | inr p ↦ elim (Bool-cases m.was_operation_enabled) [
        | inl was ↦ inr (Passes-IsOpen m was (entered actual m was p))
        | inr new ↦ absurd (fresh_session actual m new p)
      ]
    ]

dispatch-IsHeld :
    (s : DriveState) (actual : ℤ) (allowed released : Bool) (m : Machine)
    → IsHeld actual (dispatch s actual allowed released m)
      ⊎ ((s ≡ DriveState.operation_enabled) × IsOpen m)
unfolding dispatch
dispatch-IsHeld DriveState.not_ready_to_switch_on actual allowed released m =
    inl (held_case-IsHeld _ actual m)
dispatch-IsHeld DriveState.switch_on_disabled actual allowed released m =
    inl (held_case-IsHeld _ actual m)
dispatch-IsHeld DriveState.ready_to_switch_on actual allowed released m =
    inl (held_case-IsHeld _ actual m)
dispatch-IsHeld DriveState.switched_on actual allowed released m = inl (held_case-IsHeld _ actual m)
dispatch-IsHeld DriveState.operation_enabled actual allowed released m =
    elim (enabled-IsHeld actual released m) [ inl h ↦ inl h | inr o ↦ inr (refl, o) ]
dispatch-IsHeld DriveState.quick_stop_active actual allowed released m =
    inl (held_case-IsHeld _ actual m)
dispatch-IsHeld DriveState.fault_reaction_active actual allowed released m =
    inl (held_case-IsHeld _ actual m)
dispatch-IsHeld DriveState.fault actual allowed released m = inl (fault_case-IsHeld actual m)

observe-state : (sw : ℕ) (actual : ℤ) (m : Machine) → (observe sw actual m).state ≡ decode_state sw
unfolding observe
observe-state sw actual m = ground arith

observe-IsOpen : (sw : ℕ) (actual : ℤ) (m : Machine) → IsOpen (observe sw actual m) → IsOpen m
unfolding observe
observe-IsOpen sw actual m h = ground arith

-- After every cycle the axis is held at its own position with no velocity and no torque, unless the
-- drive reports OPERATION_ENABLED, has done so the cycle before, enabling is requested, no halt and
-- no fault is latched, and the command is valid and of the current session.
pub update-IsHeld :
    (sw : ℕ) (actual : ℤ) (m : Machine)
    → IsHeld actual (update sw actual m)
      ⊎ ((decode_state sw ≡ DriveState.operation_enabled) × IsOpen m)
unfolding update
update-IsHeld sw actual m =
    let o = observe sw actual m in
    elim (dispatch-IsHeld o.state actual (enable_chain_allowed o)
      (o.prev_halt_requested && not o.halt_requested) o) [
        | inl h ↦ inl (conclude-IsHeld m.state actual _ h)
        | inr (s, p) ↦ inr (sym (observe-state sw actual m) ∙ s, observe-IsOpen sw actual m p)
      ]
