-- ===== src/Canopen/Calls/Intents.antt =====
-- ComputeIntents, axis by axis.
use new_robot.Base.{
  ℕ, zero, suc, ◌+◌, ◌<◌, ◌≤◌, ◌≡◌, refl, ap, ◌∙◌, ◌↔◌, ◌⊎◌, inl, inr, true, some, List, [], ◌∷◌,
  length, Bool-cases, arith,
}
use new_robot.Canopen.Shared.{
  AxisIntent, SharedState, at_index, set_at, set_axis_intent, get_axis_intent,
  advance_intent_sequence, is_valid_axis,
}
use new_robot.Canopen.Coordinator.{SystemOpMode, Coordinator}
use new_robot.Canopen.Requests.{intent_of, set_intents, compute_intents}

at-set :
    (i : ℕ) (x : AxisIntent) (xs : List AxisIntent)
    → i < length xs
    → at_index i (set_at i x xs) ≡ some x
at-set i x [] small = absurd (omega (arith, small))
at-set zero x (y ∷ ys) small = refl
at-set (suc i) x (y ∷ ys) small = at-set i x ys (omega (arith, small))

at-set_other :
    (i j : ℕ) (x : AxisIntent) (xs : List AxisIntent)
    → at_index i xs ≡ some x
    → at_index i (set_at j x xs) ≡ some x
at-set_other i j x [] e = e
at-set_other zero zero x (y ∷ ys) e = refl
at-set_other zero (suc j) x (y ∷ ys) e = e
at-set_other (suc i) zero x (y ∷ ys) e = e
at-set_other (suc i) (suc j) x (y ∷ ys) e = at-set_other i j x ys e

length-set : (j : ℕ) (x : AxisIntent) (xs : List AxisIntent) → length (set_at j x xs) ≡ length xs
length-set j x [] = refl
length-set zero x (y ∷ ys) = refl
length-set (suc j) x (y ∷ ys) = ap suc (length-set j x ys)

-- One intent for each axis.
abbrev Sized : SharedState → Type 0
Sized s = length s.intents ≡ s.axis_count

set_axis_intent-Sized :
    (j : ℕ) (x : AxisIntent) (s : SharedState) → Sized s → Sized (set_axis_intent j x s)
unfolding set_axis_intent
set_axis_intent-Sized j x s h = elim (Bool-cases (is_valid_axis j s)) [
  | inl e ↦ rw e (length-set j x s.intents ∙ h)
  | inr e ↦ rw e h
]

set_axis_intent-count :
    (j : ℕ) (x : AxisIntent) (s : SharedState) → (set_axis_intent j x s).axis_count ≡ s.axis_count
unfolding set_axis_intent
set_axis_intent-count j x s = ground arith

set_axis_intent-at :
    (i j : ℕ) (x : AxisIntent) (s : SharedState)
    → Sized s
    → i < s.axis_count
    → (i ≡ j) ⊎ (at_index i s.intents ≡ some x)
    → at_index i (set_axis_intent j x s).intents ≡ some x
unfolding set_axis_intent
set_axis_intent-at i j x s h small (inl e) =
    let v : is_valid_axis j s ≡ true = ground (arith, small) in
    rw v (rw e (at-set j x s.intents (omega (arith, small, h, e))))
set_axis_intent-at i j x s h small (inr e) = elim (Bool-cases (is_valid_axis j s)) [
  | inl f ↦ rw f (at-set_other i j x s.intents e)
  | inr f ↦ rw f e
]

same_or_above : (j i : ℕ) → j ≤ i → (i ≡ j) ⊎ (j + 1 ≤ i)
same_or_above j i low = ground (arith, low)

-- Axis `i` is set by the rest of the loop, or is set already.
set_intents-at :
    (n i j : ℕ) (x : AxisIntent) (s : SharedState)
    → Sized s
    → i < s.axis_count
    → ((j ≤ i) × (i < j + n)) ⊎ (at_index i s.intents ≡ some x)
    → at_index i (set_intents n j x s).intents ≡ some x
unfolding set_intents
set_intents-at zero i j x s h small (inl (low, high)) = absurd (omega (arith, low, high))
set_intents-at zero i j x s h small (inr e) = e
set_intents-at (suc n) i j x s h small o =
    set_intents-at n i (j + 1) x (set_axis_intent j x s) (set_axis_intent-Sized j x s h)
      (rw (set_axis_intent-count j x s) small) (reached o)
  where
    reached :
        ((j ≤ i) × (i < j + suc n)) ⊎ (at_index i s.intents ≡ some x)
        → ((j + 1 ≤ i) × (i < (j + 1) + n)) ⊎ (at_index i (set_axis_intent j x s).intents ≡ some x)
    reached (inr e) = inr (set_axis_intent-at i j x s h small (inr e))
    reached (inl (low, high)) = elim (same_or_above j i low) [
      | inl e ↦ inr (set_axis_intent-at i j x s h small (inl e))
      | inr above ↦ inl (above, omega (arith, high))
    ]

set_intents-count :
    (n j : ℕ) (x : AxisIntent) (s : SharedState) → (set_intents n j x s).axis_count ≡ s.axis_count
unfolding set_intents
set_intents-count zero j x s = refl
set_intents-count (suc n) j x s =
    set_intents-count n (j + 1) x (set_axis_intent j x s) ∙ set_axis_intent-count j x s

intent-run : (m : SystemOpMode) → (intent_of m ≡ AxisIntent.run) ↔ (m ≡ SystemOpMode.running)
intent-run m = ground arith

compute_intents-at :
    (c : Coordinator) (i : ℕ)
    → i < c.axis_count
    → c.axis_count ≡ c.shared.axis_count
    → Sized c.shared
    → get_axis_intent i (compute_intents c).shared ≡ intent_of c.mode
unfolding compute_intents get_axis_intent advance_intent_sequence
compute_intents-at c i small count size =
    let x = intent_of c.mode in
    let t = set_intents c.axis_count 0 x c.shared in
    let e : at_index i t.intents ≡ some x =
      set_intents-at c.axis_count i 0 x c.shared size (omega (arith, small, count))
        (inl (omega arith, omega (arith, small))) in
    let v : is_valid_axis i (advance_intent_sequence t) ≡ true =
      rw (set_intents-count c.axis_count 0 x c.shared, ← count) (ground (arith, small)) in
    rw v (rw e refl)

-- With as many axes as the shared state has, and one intent for each: every axis is told to run
-- exactly when the mode is Running.
pub compute_intents-run :
    (c : Coordinator) (i : ℕ)
    → i < c.axis_count
    → c.axis_count ≡ c.shared.axis_count
    → length c.shared.intents ≡ c.shared.axis_count
    → (get_axis_intent i (compute_intents c).shared ≡ AxisIntent.run)
      ↔ (c.mode ≡ SystemOpMode.running)
compute_intents-run c i small count size =
    rw (compute_intents-at c i small count size) (intent-run c.mode)
