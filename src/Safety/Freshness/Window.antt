-- ===== src/Safety/Freshness/Window.antt =====
-- When motion is trusted, and when again after a stop.
use new_robot.Base.{
  ◌≡◌, refl, ◌∙◌, Bool, true, false, ◌&&◌, ◌||◌, List, [], ◌∷◌, All, ◌⊎◌, inl, inr, Bool-cases,
  if-branches, arith,
}
use new_robot.Base.Int.{
  ℤ, pos, negsuc, ◌-ℤ◌, ◌+ℤ◌, ◌≤ℤ◌, ◌<ℤ◌, ltb_ℤ, leb_ℤ, eqb_ℤ, -ℤ_parts, +ℤ_parts,
}
use new_robot.Base.Outcome.{Result}
use new_robot.Safety.Freshness.{
  Freshening, Freshness, Observation, out_of_order, stopped, trustworthy, age, noted, ageing,
  settling, is_lost, observed, observe, trustworthy_for_motion, is_healthy, is_warn, is_unknown,
  window_start,
}

-- What a reading that permits motion has shown.
pub record IsFresh (o : Observation) (f : Freshness) : Type 0 where
  pub valid : o.valid ≡ true
  pub no_fault : o.hard_fault ≡ false
  pub in_order : out_of_order o f ≡ false
  pub not_future : o.last_feedback_ns ≤ℤ o.now_ns
  pub in_time : (o.now_ns -ℤ o.last_feedback_ns) <ℤ f.limits.stop_ns

not_lost-IsFresh :
    (o : Observation) (f : Freshness) → out_of_order o f ≡ false → is_lost o f ≡ false → IsFresh o f
unfolding age
not_lost-IsFresh o f order kept = record {
  valid = ground (arith, kept);
  no_fault = ground (arith, kept);
  in_order = order;
  not_future = ground (arith, kept);
  in_time = ground (arith, kept);
}

-- Motion is trusted after a reading only when its data is valid, it reports no hard fault, time has
-- not gone back, and the feedback is younger than the limit to stop.
pub observe-IsFresh :
    (o : Observation) (f : Freshness) → trustworthy_for_motion (observe o f).0 ≡ true → IsFresh o f
unfolding observe observed
observe-IsFresh o f h = elim (Bool-cases (out_of_order o f)) [
  | inl e ↦ absurd (denied e)
  | inr e ↦ elim (Bool-cases (is_lost o f)) [
    | inl l ↦ absurd (lost e l)
    | inr l ↦ not_lost-IsFresh o f e l
  ]
]
  where
    denied : out_of_order o f ≡ true → ⊥
    denied e = ground (arith, e, h)

    lost : out_of_order o f ≡ false → is_lost o f ≡ true → ⊥
    lost e l = ground (arith, e, l, h)

-- So many readings.
unfoldable pub readings : List Observation → Freshness → Freshness
unfolding observe
readings [] f = f
readings (o ∷ os) f = readings os (observe o f).0

noted-limits : (o : Observation) (f : Freshness) → (noted o f).limits ≡ f.limits
unfolding noted
noted-limits o f = ground arith

settling-limits : (now : ℤ) (f : Freshness) → (settling now f).limits ≡ f.limits
unfolding settling
settling-limits now f = ground arith

ageing-limits : (f : Freshness) → (ageing f).limits ≡ f.limits
unfolding ageing
ageing-limits f = ground arith

pub observe-limits : (o : Observation) (f : Freshness) → (observe o f).0.limits ≡ f.limits
unfolding observe observed
observe-limits o f =
    let L = λ (g : Freshness). g.limits ≡ f.limits in
    if-branches (λ (x : Freshness × Result Freshening). L x.0) (out_of_order o f) (λ _. refl)
      λ _.
        if-branches L (is_lost o f) (λ _. noted-limits o f)
          λ _.
            if-branches L (leb_ℤ f.limits.warn_ns (age o f))
              (λ _. ageing-limits (noted o f) ∙ noted-limits o f)
              (λ _. settling-limits o.now_ns (noted o f) ∙ noted-limits o f)

-- Not trusted since the time `from`: no window of stability has begun before it.
record IsWaiting (from : ℤ) (f : Freshness) : Type 0 where
  distrusted : trustworthy_for_motion f ≡ false
  unlatched : f.warning_latched ≡ false
  since : (ltb_ℤ f.stable_since (pos 0) ≡ true) ⊎ (from ≤ℤ f.stable_since)

window_start-late :
    (from now : ℤ) (f : Freshness)
    → from ≤ℤ now
    → (ltb_ℤ f.stable_since (pos 0) ≡ true) ⊎ (from ≤ℤ f.stable_since)
    → from ≤ℤ window_start now f
window_start-late from now f late since = ground (arith, late, since)

not_over :
    (from now start stable : ℤ)
    → from ≤ℤ start
    → now <ℤ (from +ℤ stable)
    → leb_ℤ stable (now -ℤ start) ≡ true
    → ⊥
not_over from now start stable late early over =
    ground (arith, late, early, over, +ℤ_parts from stable, -ℤ_parts now start)

settling-IsWaiting :
    (from now : ℤ) (f : Freshness)
    → IsWaiting from f
    → from ≤ℤ now
    → now <ℤ (from +ℤ f.limits.stable_ns)
    → IsWaiting from (settling now f)
unfolding settling
settling-IsWaiting from now f w late early =
    let W = IsWaiting from in
    if-branches W (is_unknown f.state && eqb_ℤ f.limits.stable_ns (pos 0))
      (λ e. absurd (ground (arith, e, late, early, +ℤ_parts from f.limits.stable_ns)))
      λ _.
        if-branches W (is_healthy f.state) (λ e. w)
          λ e.
            if-branches W (leb_ℤ f.limits.stable_ns (now -ℤ window_start now f))
              (λ over. absurd (
                not_over from now (window_start now f) f.limits.stable_ns
                  (window_start-late from now f late w.since) early over))
              λ _. record {
                distrusted = ground (arith, w.unlatched);
                unlatched = w.unlatched;
                since = inr (window_start-late from now f late w.since);
              }

stopped-IsWaiting : (from : ℤ) (f : Freshness) → IsWaiting from (stopped f)
stopped-IsWaiting from f = record { distrusted = refl; unlatched = refl; since = inl refl }

noted-IsWaiting :
    (from : ℤ) (o : Observation) (f : Freshness) → IsWaiting from f → IsWaiting from (noted o f)
unfolding noted
noted-IsWaiting from o f w =
    if-branches (IsWaiting from) (trustworthy o && ltb_ℤ f.last_feedback o.last_feedback_ns)
      (λ _. record { distrusted = w.distrusted; unlatched = w.unlatched; since = w.since })
      (λ _. record { distrusted = w.distrusted; unlatched = w.unlatched; since = w.since })

ageing-IsWaiting : (from : ℤ) (f : Freshness) → IsWaiting from f → IsWaiting from (ageing f)
unfolding ageing
ageing-IsWaiting from f w =
    if-branches (IsWaiting from) (is_healthy f.state || is_warn f.state)
      (λ e. absurd (cc (e, w.distrusted)))
      (λ _. record { distrusted = refl; unlatched = w.unlatched; since = inl refl })

observe-IsWaiting :
    (from : ℤ) (o : Observation) (f : Freshness)
    → IsWaiting from f
    → from ≤ℤ o.now_ns
    → o.now_ns <ℤ (from +ℤ f.limits.stable_ns)
    → IsWaiting from (observe o f).0
unfolding observe observed
observe-IsWaiting from o f w late early =
    let n = noted-IsWaiting from o f w in
    if-branches (λ (x : Freshness × Result Freshening). IsWaiting from x.0) (out_of_order o f)
      (λ _. stopped-IsWaiting from f)
      λ _.
        if-branches (IsWaiting from) (is_lost o f) (λ _. stopped-IsWaiting from (noted o f))
          λ _.
            if-branches (IsWaiting from) (leb_ℤ f.limits.warn_ns (age o f))
              (λ _. ageing-IsWaiting from (noted o f) n)
              (λ _.
                settling-IsWaiting from o.now_ns (noted o f) n late (rw (noted-limits o f) early))

-- The times of the readings, from `from` on and less than `stable` after it.
abbrev pub AllWithin : ℤ → ℤ → List Observation → Type 0
AllWithin from stable os =
    All (λ (o : Observation). (from ≤ℤ o.now_ns) × (o.now_ns <ℤ (from +ℤ stable))) os

readings-IsWaiting :
    (from : ℤ) (os : List Observation) (f : Freshness)
    → IsWaiting from f
    → AllWithin from f.limits.stable_ns os
    → IsWaiting from (readings os f)
unfolding readings
readings-IsWaiting from [] f w h = w
readings-IsWaiting from (o ∷ os) f w ((late, early), h) =
    readings-IsWaiting from os (observe o f).0 (observe-IsWaiting from o f w late early)
      (rw (observe-limits o f) h)

-- A reading that stops: the feedback is lost, or time has gone back.
abbrev pub stops : Observation → Freshness → Bool
stops o f = out_of_order o f || is_lost o f

pub observe-stopped :
    (o : Observation) (f : Freshness)
    → stops o f ≡ true
    → ((observe o f).0.state ≡ Freshening.stop)
      × ((observe o f).0.warning_latched ≡ false)
      × ((observe o f).0.stable_since ≡ negsuc 0)
unfolding observe observed
observe-stopped o f h =
    let S = λ (g : Freshness).
      (g.state ≡ Freshening.stop) × (g.warning_latched ≡ false) × (g.stable_since ≡ negsuc 0) in
    if-branches (λ (x : Freshness × Result Freshening). S x.0) (out_of_order o f)
      (λ _. (refl, refl, refl))
      λ e. if-branches S (is_lost o f) (λ _. (refl, refl, refl)) λ l. absurd (cc (e, l, h))

-- After a reading that stops, motion is not trusted by any readings within the stable time from
-- `from`, the time of the first of them or an earlier one, whatever they say.
pub stop-distrusted :
    (o : Observation) (os : List Observation) (from : ℤ) (f : Freshness)
    → stops o f ≡ true
    → AllWithin from f.limits.stable_ns os
    → trustworthy_for_motion (readings (o ∷ os) f) ≡ false
unfolding readings
stop-distrusted o os from f s h =
    let (a, b, c) = observe-stopped o f s in
    let w : IsWaiting from (observe o f).0 = record {
      distrusted = rw a refl;
      unlatched = b;
      since = inl (rw c refl);
    } in
    (readings-IsWaiting from os (observe o f).0 w (rw (observe-limits o f) h)).distrusted
