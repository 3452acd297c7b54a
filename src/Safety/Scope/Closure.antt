-- ===== src/Safety/Scope/Closure.antt =====
-- The `while (changed)` loop of Domain::scope computes reachability along the active rules.
use mathlib.Core.List.{Memᴰ}
use new_robot.Base.{
  ℕ, zero, suc, ◌≤◌, ◌<◌, String, ◌≡◌, refl, ◌↔◌, ◌⊎◌, inl, inr, Bool, true, false, ◌&&◌, ◌||◌,
  List, [], ◌∷◌, arith, eq_iff, eq_refl, if◌then◌else◌, length, All, Bool-cases,
}
use new_robot.Base.Int.{ℤ}
use new_robot.Base.Names.{NameSet, contains, add_name, contains-add_name}
use new_robot.Base.Outcome.{ok}
use new_robot.Safety.Types.{Event, Association, Domain}
use new_robot.Safety.Scope.{is_active, direct_scope, sweep, saturate, scope}

or_cases : {a b c : Bool} → c ≡ (a || b) → c ≡ true → (a ≡ true) ⊎ (b ≡ true)
or_cases e h = ground arith

and_parts : (a b c : Bool) → (a && b && c) ≡ true → (a ≡ true) × (b ≡ true)
and_parts a b c h = ground arith

module _ (active : Association → Bool) where
  -- A set that no active rule leads out of.
  abbrev pub IsClosed : NameSet → List Association → Type 0
  IsClosed s = All λ rule.
      contains rule.source_group s ≡ true
      → active rule ≡ true
      → contains rule.dependent_group s ≡ true

  -- What the rules lead to from the names of `start`.
  pub data Reach (rules : List Association) (start : NameSet) : String → Type 0 where
    here : {n : String} → contains n start ≡ true → Reach rules start n
    along :
        {rule : Association}
        → Memᴰ rule rules
        → active rule ≡ true
        → Reach rules start rule.source_group
        → Reach rules start rule.dependent_group

  -- How many rules depend on a group outside the set.
  missing : List Association → NameSet → ℕ
  missing [] s = 0
  missing (rule ∷ rules) s =
      if contains rule.dependent_group s then missing rules s else suc (missing rules s)

  abbrev Grows : NameSet → NameSet → Type 0
  Grows r s = (n : String) → contains n r ≡ true → contains n s ≡ true

  add-Grows : (k : String) (r : NameSet) → Grows r (add_name k r)
  add-Grows k r n h = ground (arith, contains-add_name k n r)

  missing-le :
      (rules : List Association) (r s : NameSet) → Grows r s → missing rules s ≤ missing rules r
  unfolding missing
  missing-le [] r s g = omega arith
  missing-le (rule ∷ rules) r s g = ground (arith, missing-le rules r s g, g rule.dependent_group)

  missing_all : (rules : List Association) (s : NameSet) → missing rules s ≤ length rules
  unfolding missing
  missing_all [] s = omega arith
  missing_all (rule ∷ rules) s = ground (arith, missing_all rules s)

  sweep_kept : (rules : List Association) (r : NameSet) → (sweep active rules r true).1 ≡ true
  unfolding sweep
  sweep_kept [] r = refl
  sweep_kept (rule ∷ rules) r = sweep_kept rules _

  sweep-Grows :
      (rules : List Association) (r : NameSet) (c : Bool) → Grows r (sweep active rules r c).0
  unfolding sweep
  sweep-Grows [] r c n h = h
  sweep-Grows (rule ∷ rules) r c n h =
      sweep-Grows rules _ _ n (ground (arith, contains-add_name rule.dependent_group n r))

  sweep_unchanged :
      (rules : List Association) (r : NameSet)
      → (sweep active rules r false).1 ≡ false
      → ((sweep active rules r false).0 ≡ r) × IsClosed r rules
  unfolding sweep
  sweep_unchanged [] r h = (refl, tt)
  sweep_unchanged (rule ∷ rules) r h =
      ground (arith, sweep_kept rules (add_name rule.dependent_group r), sweep_unchanged rules r)

  sweep-missing :
      (rules : List Association) (r : NameSet)
      → (sweep active rules r false).1 ≡ true
      → missing rules (sweep active rules r false).0 < missing rules r
  unfolding sweep missing
  sweep-missing [] r h = cc
  sweep-missing (rule ∷ rules) r h =
      let r' = add_name rule.dependent_group r in
      let final = sweep active rules r' true in
      ground (
        arith,
        sweep-missing rules r,
        sweep-Grows rules r false rule.dependent_group,
        missing-le rules r final.0
            (λ n p. sweep-Grows rules r' true n (add-Grows rule.dependent_group r n p)),
        sweep-Grows rules r' true rule.dependent_group,
        contains-add_name rule.dependent_group rule.dependent_group r,
        eq_refl rule.dependent_group,
      )

  -- With more fuel than missing rules the loop ends by its test.
  saturate-IsClosed :
      (fuel : ℕ) (rules : List Association) (r : NameSet)
      → missing rules r < fuel
      → IsClosed (saturate fuel active rules r) rules
  unfolding saturate
  saturate-IsClosed zero rules r h = absurd (omega arith)
  saturate-IsClosed (suc fuel) rules r h = elim (Bool-cases (sweep active rules r false).1) [
    | inl more ↦ rw more (
        saturate-IsClosed fuel rules (sweep active rules r false).0
          (omega (arith, sweep-missing rules r more)))
    | inr done ↦ let (same, closed) = sweep_unchanged rules r done in rw (done, same) closed
  ]

  saturate-Grows :
      (fuel : ℕ) (rules : List Association) (r : NameSet) → Grows r (saturate fuel active rules r)
  unfolding saturate
  saturate-Grows zero rules r n h = h
  saturate-Grows (suc fuel) rules r n h = ground (
    arith,
    sweep-Grows rules r false n h,
    saturate-Grows fuel rules (sweep active rules r false).0 n,
  )

  closed_along :
      (rules : List Association) (s : NameSet) (rule : Association)
      → IsClosed s rules
      → Memᴰ rule rules
      → active rule ≡ true
      → contains rule.source_group s ≡ true
      → contains rule.dependent_group s ≡ true
  closed_along [] s rule c m a h = elim m [ ]
  closed_along (x ∷ rules) s rule c (Memᴰ.head e) a h = rw e (c.0 (rw e at h) (rw e at a))
  closed_along (x ∷ rules) s rule c (Memᴰ.tail m) a h = closed_along rules s rule c.1 m a h

  -- What is reached lies in every closed set around the start.
  Reach-closed :
      {rules : List Association} {start : NameSet} (s : NameSet) {n : String}
      → Grows start s
      → IsClosed s rules
      → Reach rules start n
      → contains n s ≡ true
  Reach-closed s g c (here h) = g _ h
  Reach-closed {rules} s g c (along {rule = rule} m a r) =
      closed_along rules s rule c m a (Reach-closed s g c r)

  -- Every name of a set is reached.
  abbrev IsReached : List Association → NameSet → NameSet → Type 0
  IsReached rules start s = (n : String) → contains n s ≡ true → Reach rules start n

  add-IsReached :
      (all : List Association) (start : NameSet) (rule : Association) (r : NameSet)
      → Memᴰ rule all
      → IsReached all start r
      → contains rule.source_group r ≡ true
      → active rule ≡ true
      → IsReached all start (add_name rule.dependent_group r)
  add-IsReached all start rule r m h p a n q =
      elim (or_cases (contains-add_name rule.dependent_group n r) q) [
        | inl e ↦ rw (← (eq_iff rule.dependent_group n).0 e) (along m a (h rule.source_group p))
        | inr old ↦ h n old
      ]

  step-IsReached :
      (all : List Association) (start : NameSet) (rule : Association) (r : NameSet) (hit : Bool)
      → Memᴰ rule all
      → IsReached all start r
      → (hit ≡ true → (contains rule.source_group r ≡ true) × (active rule ≡ true))
      → IsReached all start (if hit then add_name rule.dependent_group r else r)
  step-IsReached all start rule r true m h p =
      add-IsReached all start rule r m h (p refl).0 (p refl).1
  step-IsReached all start rule r false m h p = h

  sweep-IsReached :
      (all : List Association) (start : NameSet) (rules : List Association) (r : NameSet) (c : Bool)
      → ((rule : Association) → Memᴰ rule rules → Memᴰ rule all)
      → IsReached all start r
      → IsReached all start (sweep active rules r c).0
  unfolding sweep
  sweep-IsReached all start [] r c sub h = h
  sweep-IsReached all start (rule ∷ rules) r c sub h =
      sweep-IsReached all start rules _ _ (λ x m. sub x (Memᴰ.tail m))
        (step-IsReached all start rule r _ (sub rule (Memᴰ.head refl)) h (λ e. and_parts _ _ _ e))

  saturate-IsReached :
      (fuel : ℕ) (rules : List Association) (start r : NameSet)
      → IsReached rules start r
      → IsReached rules start (saturate fuel active rules r)
  unfolding saturate
  saturate-IsReached zero rules start r h = h
  saturate-IsReached (suc fuel) rules start r h = elim (Bool-cases (sweep active rules r false).1) [
    | inl more ↦ rw more (
        saturate-IsReached fuel rules start (sweep active rules r false).0
          (sweep-IsReached rules start rules r false (λ x m. m) h))
    | inr done ↦ rw (done, (sweep_unchanged rules r done).0) h
  ]

  -- With one round more than there are rules, the loop computes what the rules reach.
  pub contains-saturate :
      (rules : List Association) (start : NameSet) (n : String)
      → (contains n (saturate (suc (length rules)) active rules start) ≡ true) ↔ Reach rules start n
  contains-saturate rules start n = (
    saturate-IsReached (suc (length rules)) rules start start (λ k h. here h) n,
    Reach-closed (saturate (suc (length rules)) active rules start)
        (saturate-Grows (suc (length rules)) rules start)
        (saturate-IsClosed (suc (length rules)) rules start
          (omega (arith, missing_all rules start))),
  )

-- When the groups that an event concerns itself are known, its scope is found, and it is exactly
-- what the active associations reach from them.
pub scope-Reach :
    (now : ℤ) (d : Domain) (e : Event) (start : NameSet)
    → direct_scope d e ≡ ok start
    → (s : NameSet) × (scope now d e ≡ ok s)
      × ((n : String) → (contains n s ≡ true) ↔ Reach (is_active now d e) d.associations start n)
unfolding scope
scope-Reach now d e start h = (
  saturate (suc (length d.associations)) (is_active now d e) d.associations start,
  rw (h, scope),
  contains-saturate (is_active now d e) d.associations start,
)
