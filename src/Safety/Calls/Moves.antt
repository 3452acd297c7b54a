-- ===== src/Safety/Calls/Moves.antt =====
-- What one call may do to one group.
use new_robot.Base.{
  String, ◌≡◌, refl, sym, ◌∙◌, ◌≢◌, ◌⊎◌, inl, inr, not, ◌||◌, some, arith, Bool-cases, Option-cases,
}
use new_robot.Base.Int.{ℤ}
use new_robot.Base.Names.{lookup}
use new_robot.Base.Outcome.{Result, ok, err}
use new_robot.Safety.Types.{State, Group, Domain, next, state_eq}
use new_robot.Safety.Evolution.{
  EvolvesAt, Evolves, EvolvesAt-weaken, EvolvesAt-compose, EvolvesAt-adjust,
}
use new_robot.Safety.Propagate.{propagate, after}
use new_robot.Safety.Propagate.Falls.{Falls, Falls-refl, Falls-trans, propagate-Falls}
use new_robot.Safety.Sessions.{
  with_group, is_blocked, arm, run, armed_group, halted_group, invalidated_group,
}
use new_robot.Safety.Calls.{Call}

pub same_some : {g h : Group} → some g ≡ some h → g ≡ h
same_some e = ground arith

-- `c` is the call that moved the group `n` from `g` to `g'`.
pub data Moves (c : Call) (n : String) (g g' : Group) : Type 0 where
  falls : Falls g g' → Moves c n g g'
  arms :
      (h : Group)
      → c ≡ Call.arms n
      → Falls g h
      → h.state ≢ State.armed
      → h.state ≢ State.running
      → g'.state ≡ State.armed
      → g'.epoch ≡ next h.epoch
      → Moves c n g g'
  runs :
      (h : Group)
      → c ≡ Call.runs n
      → Falls g h
      → h.state ≡ State.armed
      → g'.state ≡ State.running
      → g'.epoch ≡ h.epoch
      → Moves c n g g'
  stops : g'.state ≡ State.stopped → g'.epoch ≡ next g.epoch → Moves c n g g'
  retires :
      g.state ≡ State.fault → g'.state ≡ State.fault → g'.epoch ≡ next g.epoch → Moves c n g g'

abbrev pub Moved : Call → Domain → Domain → Type 0
Moved c d d' = EvolvesAt (Moves c) d.groups d'.groups

pub Moves-refl : (c : Call) (n : String) (g : Group) → Moves c n g g
Moves-refl c n g = falls (Falls-refl g)

pub Fell : (c : Call) (d d' : Domain) → Evolves Falls d.groups d'.groups → Moved c d d'
Fell c d d' p = EvolvesAt-weaken (λ n. Falls) (Moves c) d.groups d'.groups (λ n g g' f. falls f) p

pub after_cases {ℓ κ} :
    {A : Type ℓ} (P : Domain → Type κ) (p : Domain × Result (Unit {0}))
    (k : Domain → Domain × Result A)
    → P p.0
    → P (k p.0).0
    → P (after p k).0
after_cases P (d, ok _) k early late = late
after_cases P (d, err x) k early late = early

pub with_group_cases {ℓ κ} :
    {A : Type ℓ} (P : Domain → Type κ) (name : String) (d : Domain) (k : Group → Domain × Result A)
    → P d
    → ((g : Group) → lookup name d.groups ≡ some g → P (k g).0)
    → P (with_group name d k).0
with_group_cases P name d k missing found = elim (Option-cases (lookup name d.groups)) [
  | inl e ↦ rw (e, with_group) missing
  | inr (g, e) ↦ rw (e, with_group) (found g e)
]

abbrev ArmsFrom : Call → String → Group → Group → Type 0
ArmsFrom c n h g' =
    Falls h g'
    ⊎ ((c ≡ Call.arms n)
        × (h.state ≢ State.armed)
        × (h.state ≢ State.running)
        × (g'.state ≡ State.armed)
        × (g'.epoch ≡ next h.epoch))

abbrev RunsFrom : Call → String → Group → Group → Type 0
RunsFrom c n h g' =
    Falls h g'
    ⊎ ((c ≡ Call.runs n)
        × (h.state ≡ State.armed)
        × (g'.state ≡ State.running)
        × (g'.epoch ≡ h.epoch))

then_arms :
    (c : Call) (n : String) (g h g' : Group) → Falls g h → ArmsFrom c n h g' → Moves c n g g'
then_arms c n g h g' f (inl f') = falls (Falls-trans g h g' f f')
then_arms c n g h g' f (inr (e, a, r, s, p)) = arms h e f a r s p

then_runs :
    (c : Call) (n : String) (g h g' : Group) → Falls g h → RunsFrom c n h g' → Moves c n g g'
then_runs c n g h g' f (inl f') = falls (Falls-trans g h g' f f')
then_runs c n g h g' f (inr (e, a, s, p)) = runs h e f a s p

armed-ArmsFrom :
    (name : String) (g : Group)
    → g.state ≢ State.running
    → ArmsFrom (Call.arms name) name g (armed_group g)
unfolding armed_group
armed-ArmsFrom name g h = ground arith

pub arm-Moved : (now : ℤ) (name : String) (d : Domain) → Moved (Call.arms name) d (arm now name d).0
unfolding arm
arm-Moved now name d =
    let c = Call.arms name in
    let p = (propagate now d).0 in
    let kept : Moved c d p = Fell c d p (propagate-Falls now d) in
    after_cases (Moved c d) (propagate now d) _ kept (
      with_group_cases (Moved c d) name p _ kept λ g e.
        elim (Bool-cases (is_blocked now p g || state_eq g.state State.running)) [
          | inl refused ↦ rw refused kept
          | inr granted ↦ rw granted (
              EvolvesAt-compose (λ n. Falls) (ArmsFrom c) (Moves c) d.groups p.groups _
                (then_arms c) (propagate-Falls now d)
                (EvolvesAt-adjust (ArmsFrom c) name (λ _. armed_group g) p.groups
                  (λ n h. inl (Falls-refl h))
                  (λ h eh. rw (same_some (sym eh ∙ e)) (armed-ArmsFrom name g (ground arith)))))
        ])

pub run-Moved : (now : ℤ) (name : String) (d : Domain) → Moved (Call.runs name) d (run now name d).0
unfolding run
run-Moved now name d =
    let c = Call.runs name in
    let p = (propagate now d).0 in
    let kept : Moved c d p = Fell c d p (propagate-Falls now d) in
    after_cases (Moved c d) (propagate now d) _ kept (
      with_group_cases (Moved c d) name p _ kept λ g e.
        elim (Bool-cases (is_blocked now p g || not (state_eq g.state State.armed))) [
          | inl refused ↦ rw refused kept
          | inr granted ↦ rw granted (
              EvolvesAt-compose (λ n. Falls) (RunsFrom c) (Moves c) d.groups p.groups _
                (then_runs c) (propagate-Falls now d)
                (EvolvesAt-adjust (RunsFrom c) name _ p.groups (λ n h. inl (Falls-refl h))
                  (λ h eh. rw (same_some (sym eh ∙ e)) (inr (refl, ground arith, refl, refl)))))
        ])

pub halted-Moves : (c : Call) (n : String) (g : Group) → Moves c n g (halted_group g)
unfolding halted_group
halted-Moves c n g = grind (arith, falls, stops)

pub invalidated-Moves : (c : Call) (n : String) (g : Group) → Moves c n g (invalidated_group g)
unfolding invalidated_group
invalidated-Moves c n g = grind (arith, stops, retires)
