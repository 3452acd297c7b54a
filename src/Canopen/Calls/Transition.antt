-- ===== src/Canopen/Calls/Transition.antt =====
-- What DoTransition may come to.
use new_robot.Base.{
  ◌≡◌, refl, inl, inr, Bool, true, false, List, [], ◌∷◌, any_of, Bool-cases, String, arith,
}
use new_robot.Canopen.Coordinator.{
  SystemOpMode, mode_eq, Coordinator, Action, concluded, do_transition,
}

pub mode_eq-≡ : (a b : SystemOpMode) → mode_eq a b ≡ true → a ≡ b
mode_eq-≡ a b h = ground arith

module _ {ℓ} (P : Coordinator → Type ℓ) (to : SystemOpMode) where
  pub concluded-cases :
      (x : Coordinator × Bool × String)
      → (x.1 ≡ true → P (record x.0 { mode = to }))
      → (x.1 ≡ false → P x.0)
      → P (concluded to x).0
  unfolding concluded
  concluded-cases (c, true, d) done failed = done refl
  concluded-cases (c, false, d) done failed = failed refl

  -- A transition leaves the state alone, or its guard held and the action decides.
  pub transition-cases :
      (allowed : List SystemOpMode) (action : Action) (c : Coordinator)
      → P c
      → (any_of (λ from. mode_eq from c.mode) allowed ≡ true
          → (action c).1 ≡ true
          → P (record (action c).0 { mode = to }))
      → (any_of (λ from. mode_eq from c.mode) allowed ≡ true
          → (action c).1 ≡ false
          → P (action c).0)
      → P (do_transition allowed to action c).0
  unfolding do_transition
  transition-cases allowed action c same done failed =
      elim (Bool-cases (any_of (λ from. mode_eq from c.mode) allowed)) [
        | inl e ↦ rw e (concluded-cases (action c) (done e) (failed e))
        | inr e ↦ elim (Bool-cases (mode_eq c.mode to)) [
          | inl f ↦ rw e (rw f same)
          | inr f ↦ rw e (rw f same)
        ]
      ]

pub only_from : (from m : SystemOpMode) → any_of (λ x. mode_eq x m) (from ∷ []) ≡ true → from ≡ m
only_from from m h = mode_eq-≡ from m (ground arith)
