-- ===== src/Safety/Freshness/Recovery.antt =====
-- Motion is trusted again when the feedback stays fresh.
use new_robot.Base.{
  ◌≡◌, refl, sym, ◌∙◌, Bool, true, false, ◌&&◌, not, List, [], ◌∷◌, ◌⊎◌, inl, inr, if-branches,
  arith,
}
use new_robot.Base.Int.{ℤ, pos, negsuc, ◌-ℤ◌, ◌+ℤ◌, ◌≤ℤ◌, leb_ℤ, eqb_ℤ, -ℤ_parts, +ℤ_parts}
use new_robot.Safety.Freshness.{
  Freshening, Freshness, Observation, out_of_order, age, noted, settling, is_lost, observed,
  observe, is_healthy, is_unknown, window_start,
}
use new_robot.Safety.Freshness.Window.{readings, stops, observe-stopped, observe-limits}

-- A reading in order whose feedback is not lost and younger than the limit to warn.
abbrev pub is_good : Observation → Freshness → Bool
is_good o f = not (stops o f) && not (leb_ℤ f.limits.warn_ns (age o f))

unfoldable pub all_good : List Observation → Freshness → Bool
all_good [] f = true
all_good (o ∷ os) f = is_good o f && all_good os (observe o f).0

observe-good :
    (o : Observation) (f : Freshness)
    → is_good o f ≡ true
    → (observe o f).0 ≡ settling o.now_ns (noted o f)
unfolding observe observed
observe-good o f h =
    let a : out_of_order o f ≡ false = ground (arith, h) in
    let b : is_lost o f ≡ false = ground (arith, h) in
    let c : leb_ℤ f.limits.warn_ns (age o f) ≡ false = ground (arith, h) in rw (a, b, c) refl

-- Healthy, or in the window that began at `start`.
abbrev Settles : ℤ → Freshness → Type 0
Settles start f =
    (is_healthy f.state ≡ true)
    ⊎ ((is_unknown f.state ≡ false) × (f.stable_since ≡ start) × (pos 0 ≤ℤ start))

started :
    (start now : ℤ) (f : Freshness)
    → Settles start f
    → is_healthy f.state ≡ false
    → (window_start now f ≡ start) × (pos 0 ≤ℤ start)
started start now f (inl h) e = absurd (cc (h, e))
started start now f (inr (u, q, p)) e = (ground (arith, q, p), p)

settling-open :
    (start now : ℤ) (f : Freshness)
    → (is_healthy f.state ≡ false → (window_start now f ≡ start) × (pos 0 ≤ℤ start))
    → Settles start (settling now f)
unfolding settling
settling-open start now f s =
    let S = Settles start in
    if-branches S (is_unknown f.state && eqb_ℤ f.limits.stable_ns (pos 0)) (λ _. inl refl)
      λ _.
        if-branches S (is_healthy f.state) (λ e. inl e)
          λ e.
            if-branches S (leb_ℤ f.limits.stable_ns (now -ℤ window_start now f)) (λ _. inl refl)
              λ _. let (q, p) = s e in inr (ground arith, q, p)

settling-healthy :
    (start now : ℤ) (f : Freshness)
    → Settles start f
    → (start +ℤ f.limits.stable_ns) ≤ℤ now
    → (settling now f).state ≡ Freshening.healthy
unfolding settling
settling-healthy start now f s late =
    let H = λ (g : Freshness). g.state ≡ Freshening.healthy in
    if-branches H (is_unknown f.state && eqb_ℤ f.limits.stable_ns (pos 0)) (λ _. refl)
      λ _.
        if-branches H (is_healthy f.state) (λ e. ground (arith, e))
          λ e.
            if-branches H (leb_ℤ f.limits.stable_ns (now -ℤ window_start now f)) (λ _. refl)
              λ under. absurd (enough under (started start now f s e).0)
  where
    enough :
        leb_ℤ f.limits.stable_ns (now -ℤ window_start now f) ≡ false
        → window_start now f ≡ start
        → ⊥
    enough under q =
        let b : leb_ℤ f.limits.stable_ns (now -ℤ start) ≡ false = rw (sym q) under in
        ground (arith, b, late, +ℤ_parts start f.limits.stable_ns, -ℤ_parts now start)

noted-same :
    (o : Observation) (f : Freshness)
    → ((noted o f).state ≡ f.state)
      × ((noted o f).stable_since ≡ f.stable_since)
      × ((noted o f).limits ≡ f.limits)
unfolding noted
noted-same o f = ground arith

Settles-noted :
    (start : ℤ) (o : Observation) (f : Freshness) → Settles start f → Settles start (noted o f)
Settles-noted start o f s = let (a, b, c) = noted-same o f in rw (a, b) s

-- A window that goes on.
observe-Settles :
    (start : ℤ) (o : Observation) (f : Freshness)
    → is_good o f ≡ true
    → Settles start f
    → Settles start (observe o f).0
observe-Settles start o f good s = rw (observe-good o f good) (
    settling-open start o.now_ns (noted o f)
      (started start o.now_ns (noted o f) (Settles-noted start o f s)))

-- A window that begins, after a stop.
observe-begins :
    (o : Observation) (f : Freshness)
    → is_good o f ≡ true
    → f.stable_since ≡ negsuc 0
    → Settles o.now_ns (observe o f).0
observe-begins o f good s =
    let (a, b, c) = noted-same o f in
    rw (observe-good o f good)
      (settling-open o.now_ns o.now_ns (noted o f) λ _. (rw (b, s) refl, ground (arith, good)))

readings-Settles :
    (start : ℤ) (os : List Observation) (f : Freshness)
    → all_good os f ≡ true
    → Settles start f
    → Settles start (readings os f)
unfolding readings all_good
readings-Settles start [] f good s = s
readings-Settles start (o ∷ os) f good s =
    readings-Settles start os (observe o f).0 (ground (arith, good))
      (observe-Settles start o f (ground (arith, good)) s)

readings-limits : (os : List Observation) (f : Freshness) → (readings os f).limits ≡ f.limits
unfolding readings
readings-limits [] f = refl
readings-limits (o ∷ os) f = readings-limits os (observe o f).0 ∙ observe-limits o f

-- After a reading that stops, readings that are all in order, valid and younger than the limit to
-- warn make the state Healthy as soon as the last is the stable time after the first of them.
pub readings-healthy :
    (bad first last : Observation) (os : List Observation) (f : Freshness)
    → stops bad f ≡ true
    → all_good (first ∷ os) (observe bad f).0 ≡ true
    → is_good last (readings (first ∷ os) (observe bad f).0) ≡ true
    → (first.now_ns +ℤ f.limits.stable_ns) ≤ℤ last.now_ns
    → (observe last (readings (first ∷ os) (observe bad f).0)).0.state ≡ Freshening.healthy
unfolding readings all_good
readings-healthy bad first last os f bad_stops good last_good late =
    let (_, _, since) = observe-stopped bad f bad_stops in
    let g = (observe bad f).0 in
    let h = (observe first g).0 in
    let r = readings os h in
    let s =
      readings-Settles first.now_ns os h (ground (arith, good))
        (observe-begins first g (ground (arith, good)) since) in
    let (_, _, limits) = noted-same last r in
    rw (observe-good last r last_good) (
      settling-healthy first.now_ns last.now_ns (noted last r) (Settles-noted first.now_ns last r s)
        (rw (limits, readings-limits os h, observe-limits first g, observe-limits bad f) late))
