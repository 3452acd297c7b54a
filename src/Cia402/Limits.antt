-- ===== src/Cia402/Limits.antt =====
-- Bounds of the drive machine: the target's step in a cycle, and the number of fault resets.
use new_robot.Base.{
  ℕ, ◌+◌, ◌≤◌, ◌<◌, ◌≡◌, refl, sym, ◌∙◌, ◌⊎◌, inl, inr, Bool, true, false, ◌&&◌, not, ltb, ◌≢◌,
  if◌then◌else◌, Bool-cases, arith,
}
use new_robot.Base.Int.{ℤ, pos, ◌+ℤ◌, ◌-ℤ◌, ◌≤ℤ◌, ltb_ℤ, eqb_ℤ, +ℤ_parts, -ℤ_parts}
use new_robot.Cia402.Types.{DriveState, Machine, ctrl_fault_reset, mode_ip}
use new_robot.Cia402.Machine.{
  slew, hold_target, fault_phase_step, step_fault_reset, fault_case, held_case, enabled_case,
  enabled_rest, enter_enabled, dispatch, leave_enabled, observe, conclude, update,
  reset_fault_flow_context, enabled_controlword, step_operation_enabled, follow_position,
  enable_chain_allowed,
}

-- Within `d` of the last target, and between it and the wanted one.
abbrev pub IsNear : ℤ → ℤ → ℤ → ℤ → Type 0
IsNear d s t r =
    (r ≤ℤ (s +ℤ d))
    × ((s -ℤ d) ≤ℤ r)
    × (s ≤ℤ t → (s ≤ℤ r) × (r ≤ℤ t))
    × (t ≤ℤ s → (t ≤ℤ r) × (r ≤ℤ s))

ltb-< : (a b : ℕ) → ltb a b ≡ true → a < b
ltb-< a b h = ground arith

ltb-≥ : (a b : ℕ) → ltb a b ≡ false → b ≤ a
ltb-≥ a b h = ground arith

-- With a limit `d` of at least 0, the slewed target is at most `d` from the last target and lies
-- between it and the wanted one.
pub slew-IsNear : (d s t : ℤ) → pos 0 ≤ℤ d → IsNear d s t (slew d s t)
unfolding slew
slew-IsNear d s t h =
    let a = -ℤ_parts t s in
    let b = -ℤ_parts (pos 0) d in
    let up = +ℤ_parts s d in
    let down = -ℤ_parts s d in
    elim (Bool-cases (ltb_ℤ d (t -ℤ s))) [
      | inl e ↦
          let l = ltb-< _ _ e in
          rw e (
            omega arith,
            omega arith,
            λ k. (omega arith, omega arith),
            λ k. (omega arith, omega arith),
          )
      | inr e ↦
          let l = ltb-≥ _ _ e in
          elim (Bool-cases (ltb_ℤ (t -ℤ s) (pos 0 -ℤ d))) [
            | inl f ↦
                let n = ltb-< _ _ f in
                rw e (
                  rw f (
                    omega arith,
                    omega arith,
                    λ k. (omega arith, omega arith),
                    λ k. (omega arith, omega arith),
                  ))
            | inr f ↦
                let n = ltb-≥ _ _ f in
                rw e (
                  rw f (
                    omega arith,
                    omega arith,
                    λ k. (omega arith, omega arith),
                    λ k. (omega arith, omega arith),
                  ))
          ]
    ]

-- A cycle that sends the reset counts it, within the limit; any other leaves the count.
abbrev pub IsCounted : Machine → Machine → Type 0
IsCounted m w =
    (w.max_fault_resets ≡ m.max_fault_resets)
    × (((w.fault_reset_count ≡ m.fault_reset_count) × (w.controlword ≢ ctrl_fault_reset))
        ⊎ ((w.fault_reset_count ≡ m.fault_reset_count + 1)
            × (w.fault_reset_count ≤ w.max_fault_resets)))

step-IsCounted : (m : Machine) → IsCounted m (step_fault_reset m)
unfolding step_fault_reset fault_phase_step
step-IsCounted m = ground arith

fault_case-IsCounted : (actual : ℤ) (m : Machine) → IsCounted m (fault_case actual m)
unfolding fault_case hold_target
fault_case-IsCounted actual m = step-IsCounted m

held_case-IsCounted :
    (word : ℕ) (actual : ℤ) (m : Machine)
    → word ≢ ctrl_fault_reset
    → IsCounted m (held_case word actual m)
unfolding held_case hold_target
held_case-IsCounted word actual m h = (refl, inl (refl, h))

-- What leaves the count, the limit and the controlword alone.
abbrev Quiet : Machine → Machine → Type 0
Quiet m w =
    (w.max_fault_resets ≡ m.max_fault_resets)
    × (w.fault_reset_count ≡ m.fault_reset_count)
    × (w.controlword ≡ m.controlword)

operate-Quiet : (actual : ℤ) (m : Machine) → Quiet m (step_operation_enabled actual m)
unfolding step_operation_enabled hold_target follow_position
operate-Quiet actual m = ground arith

enter-Quiet : (actual : ℤ) (m : Machine) → Quiet m (enter_enabled actual m)
unfolding enter_enabled hold_target
enter-Quiet actual m = ground arith

controlword-plain : (m : Machine) → enabled_controlword m ≢ ctrl_fault_reset
controlword-plain m = elim (Bool-cases (eqb_ℤ m.target_mode mode_ip)) [
  | inl e ↦ elim (Bool-cases m.halt_requested) [
    | inl f ↦ rw e (rw f (λ h. absurd (omega (arith, h))))
    | inr f ↦ rw e (rw f (λ h. absurd (omega (arith, h))))
  ]
  | inr e ↦ elim (Bool-cases m.halt_requested) [
    | inl f ↦ rw e (rw f (λ h. absurd (omega (arith, h))))
    | inr f ↦ rw e (rw f (λ h. absurd (omega (arith, h))))
  ]
]

Quiet-IsCounted : (m w : Machine) → m.controlword ≢ ctrl_fault_reset → Quiet m w → IsCounted m w
Quiet-IsCounted m w h q = (q.0, inl (q.1, λ e. h (sym q.2 ∙ e)))

one_of_three :
    (P : Machine → Type 0) (a b : Bool) (x y z : Machine)
    → P x
    → P y
    → P z
    → P (if a then x else if b then y else z)
one_of_three P true b x y z p q r = p
one_of_three P false true x y z p q r = q
one_of_three P false false x y z p q r = r

one_of_two : (P : Machine → Type 0) (b : Bool) (x y : Machine) → P x → P y → P (if b then x else y)
one_of_two P true x y p q = p
one_of_two P false x y p q = q

rest-IsCounted :
    (actual : ℤ) (released : Bool) (w : Machine)
    → w.controlword ≢ ctrl_fault_reset
    → IsCounted w (enabled_rest actual released w)
unfolding enabled_rest hold_target
rest-IsCounted actual released w h =
    one_of_three (IsCounted w) (not w.enable_requested) w.halt_requested _ _ _
      (refl, inl (refl, λ e. absurd (omega (arith, e)))) (refl, inl (refl, h))
      (one_of_two (λ x. IsCounted w (step_operation_enabled actual x)) released
        (hold_target actual w) w
        (Quiet-IsCounted w (step_operation_enabled actual (hold_target actual w)) h
          (operate-Quiet actual (hold_target actual w)))
        (Quiet-IsCounted w (step_operation_enabled actual w) h (operate-Quiet actual w)))

Quiet-first :
    (m o x : Machine)
    → o.max_fault_resets ≡ m.max_fault_resets
    → o.fault_reset_count ≡ m.fault_reset_count
    → IsCounted o x
    → IsCounted m x
Quiet-first m o x a b (c, d) = rw (← a, ← b) (c, d)

enabled-IsCounted :
    (actual : ℤ) (released : Bool) (m : Machine) → IsCounted m (enabled_case actual released m)
unfolding enabled_case
enabled-IsCounted actual released m =
    let e = enter_enabled actual m in
    let w = record e { controlword = enabled_controlword e } in
    let q = enter-Quiet actual m in
    Quiet-first m w (enabled_rest actual released w) q.0 q.1
      (rest-IsCounted actual released w (controlword-plain e))

dispatch-IsCounted :
    (s : DriveState) (actual : ℤ) (allowed released : Bool) (m : Machine)
    → IsCounted m (dispatch s actual allowed released m)
unfolding dispatch
dispatch-IsCounted DriveState.not_ready_to_switch_on actual allowed released m =
    held_case-IsCounted _ actual m (λ e. absurd (omega (arith, e)))
dispatch-IsCounted DriveState.switch_on_disabled actual true released m =
    held_case-IsCounted _ actual m (λ e. absurd (omega (arith, e)))
dispatch-IsCounted DriveState.switch_on_disabled actual false released m =
    held_case-IsCounted _ actual m (λ e. absurd (omega (arith, e)))
dispatch-IsCounted DriveState.ready_to_switch_on actual true released m =
    held_case-IsCounted _ actual m (λ e. absurd (omega (arith, e)))
dispatch-IsCounted DriveState.ready_to_switch_on actual false released m =
    held_case-IsCounted _ actual m (λ e. absurd (omega (arith, e)))
dispatch-IsCounted DriveState.switched_on actual true released m =
    held_case-IsCounted _ actual m (λ e. absurd (omega (arith, e)))
dispatch-IsCounted DriveState.switched_on actual false released m =
    held_case-IsCounted _ actual m (λ e. absurd (omega (arith, e)))
dispatch-IsCounted DriveState.operation_enabled actual allowed released m =
    enabled-IsCounted actual released m
dispatch-IsCounted DriveState.quick_stop_active actual allowed released m =
    held_case-IsCounted _ actual m (λ e. absurd (omega (arith, e)))
dispatch-IsCounted DriveState.fault_reaction_active actual allowed released m =
    held_case-IsCounted _ actual m (λ e. absurd (omega (arith, e)))
dispatch-IsCounted DriveState.fault actual allowed released m = fault_case-IsCounted actual m

observe-Quiet : (sw : ℕ) (actual : ℤ) (m : Machine) → Quiet m (observe sw actual m)
unfolding observe reset_fault_flow_context
observe-Quiet sw actual m = ground arith

conclude-Quiet : (prev : DriveState) (actual : ℤ) (m : Machine) → Quiet m (conclude prev actual m)
unfolding conclude leave_enabled hold_target
conclude-Quiet prev actual m = ground arith

IsCounted-Quiet : (m w x : Machine) → IsCounted m w → Quiet w x → IsCounted m x
IsCounted-Quiet m w x c (a, b, d) = rw (a, b, d) c

-- In every cycle: the limit stays; either no fault reset is sent and the count of resets stays, or
-- the count grows by one and is within the limit.
pub update-IsCounted : (sw : ℕ) (actual : ℤ) (m : Machine) → IsCounted m (update sw actual m)
unfolding update
update-IsCounted sw actual m =
    let o = observe sw actual m in
    let released = o.prev_halt_requested && not o.halt_requested in
    let x = dispatch o.state actual (enable_chain_allowed o) released o in
    Quiet-first m o (update sw actual m) (observe-Quiet sw actual m).0 (observe-Quiet sw actual m).1
      (IsCounted-Quiet o x (update sw actual m)
        (dispatch-IsCounted o.state actual (enable_chain_allowed o) released o)
        (conclude-Quiet m.state actual x))
