-- ===== src/Safety/Propagate/Blockers.antt =====
-- After propagation every group that a restriction affects has a blocker.
use mathlib.Core.Path.{subst}
use new_robot.Base.{
  String, ◌≡◌, refl, ◌≢◌, ap, inl, inr, true, some, List, [], ◌∷◌, ◌++◌, arith, eq_iff, eq_refl,
  str_eq, Bool-cases, Option-cases,
}
use new_robot.Base.Int.{ℤ}
use new_robot.Base.Names.{
  Map, NameSet, lookup, bound, contains, adjust, lookup-adjust, bound-lookup,
}
use new_robot.Base.Outcome.{Error, Result, ok, err}
use new_robot.Safety.Types.{Event, Group, Domain}
use new_robot.Safety.Setup.{non_empty}
use new_robot.Safety.Scope.{Restriction, scope, restrictions}
use new_robot.Safety.Evolution.{Evolves, Evolves-refl, Evolves-trans, Evolves-adjust}
use new_robot.Safety.Propagate.{
  expire_owner, blocked, block_names, block_all, prepared, apply_restrictions, propagate,
}
use new_robot.Safety.Propagate.Recorded.{restrictions-lookup, noted, Result-cases}

-- A group that has a blocker keeps one.
abbrev Keeps : Group → Group → Type 0
Keeps g g' = non_empty g.blockers ≡ true → non_empty g'.blockers ≡ true

Keeps-trans : (a b c : Group) → Keeps a b → Keeps b c → Keeps a c
Keeps-trans a b c p q h = q (p h)

non_empty-append : (xs : List String) (id : String) → non_empty (xs ++ id ∷ []) ≡ true
non_empty-append [] id = refl
non_empty-append (x ∷ xs) id = refl

blocked-non_empty : (id why : String) (g : Group) → non_empty (blocked id why g).blockers ≡ true
unfolding blocked
blocked-non_empty id why g = non_empty-append g.blockers id

block_names-Keeps :
    (id why : String) (ns : NameSet) (gs : Map Group)
    → Evolves Keeps gs (block_names id why ns gs).0
unfolding block_names
block_names-Keeps id why [] gs = Evolves-refl Keeps (λ g h. h) gs
block_names-Keeps id why (n ∷ ns) gs = elim (Bool-cases (bound n gs)) [
  | inl e ↦ rw e (
      Evolves-trans Keeps Keeps-trans gs (adjust n (blocked id why) gs) _
        (Evolves-adjust Keeps n (blocked id why) gs (λ g h. h)
          (λ g h p. blocked-non_empty id why g))
        (block_names-Keeps id why ns (adjust n (blocked id why) gs)))
  | inr e ↦ rw e (Evolves-refl Keeps (λ g h. h) gs)
]

block_all-Keeps : (rs : Map Restriction) (gs : Map Group) → Evolves Keeps gs (block_all rs gs).0
unfolding block_all
block_all-Keeps [] gs = Evolves-refl Keeps (λ g h. h) gs
block_all-Keeps ((id, r) ∷ rs) gs =
    go (block_names id r.reason r.affected gs) (block_names-Keeps id r.reason r.affected gs)
      (block_all-Keeps rs (block_names id r.reason r.affected gs).0)
  where
    go :
        (b : Map Group × Result (Unit {0}))
        → Evolves Keeps gs b.0
        → Evolves Keeps b.0 (block_all rs b.0).0
        → Evolves Keeps gs
            (let res : Map Group × Result (Unit {0}) = elim b.1 [
              | err x ↦ (b.0, err x)
              | ok _ ↦ block_all rs b.0
            ] in
              res).0
    go (gs', err x) p q = p
    go (gs', ok _) p q = Evolves-trans Keeps Keeps-trans gs gs' _ p q

-- `n` has a blocker among the groups.
abbrev IsBlocked : String → Map Group → Type 0
IsBlocked n gs = (g : Group) × (lookup n gs ≡ some g) × (non_empty g.blockers ≡ true)

IsBlocked-kept :
    (n : String) (gs hs : Map Group) → Evolves Keeps gs hs → IsBlocked n gs → IsBlocked n hs
IsBlocked-kept n gs hs k (g, e, b) = let (h, f, c) = k n g e in (h, f, c b)

adjust-IsBlocked :
    (id why n : String) (gs : Map Group)
    → bound n gs ≡ true
    → IsBlocked n (adjust n (blocked id why) gs)
adjust-IsBlocked id why n gs b = elim (Option-cases (lookup n gs)) [
  | inl e ↦ absurd (ground (arith, bound-lookup n gs))
  | inr (g, e) ↦ (
    blocked id why g,
    ground (arith, lookup-adjust n n (blocked id why) gs, eq_refl n),
    blocked-non_empty id why g,
  )
]

block_names-IsBlocked :
    (id why : String) (ns : NameSet) (gs : Map Group) (n : String)
    → (block_names id why ns gs).1 ≡ ok tt
    → contains n ns ≡ true
    → IsBlocked n (block_names id why ns gs).0
unfolding block_names
block_names-IsBlocked id why [] gs n done h = absurd (ground arith)
block_names-IsBlocked id why (m ∷ ns) gs n done h =
    let gs' = adjust m (blocked id why) gs in
    elim (Bool-cases (bound m gs)) [
      | inr e ↦ absurd (ground arith)
      | inl e ↦ elim (Bool-cases (str_eq m n)) [
        | inr other ↦ rw e (block_names-IsBlocked id why ns gs' n (ground arith) (ground arith))
        | inl eq ↦
            let same = (eq_iff m n).0 eq in
            rw e (
              IsBlocked-kept n gs' (block_names id why ns gs').0 (block_names-Keeps id why ns gs')
                (subst (λ k. IsBlocked k gs') same (adjust-IsBlocked id why m gs e)))
      ]
    ]

-- When the loop goes through, its first entry went through, and so did the rest.
block_all_ok :
    (id : String) (r : Restriction) (rs : Map Restriction) (gs : Map Group)
    → (block_all ((id, r) ∷ rs) gs).1 ≡ ok tt
    → ((block_names id r.reason r.affected gs).1 ≡ ok tt)
      × (block_all ((id, r) ∷ rs) gs ≡ block_all rs (block_names id r.reason r.affected gs).0)
unfolding block_all
block_all_ok id r rs gs = go (block_names id r.reason r.affected gs)
  where
    go :
        (b : Map Group × Result (Unit {0}))
        → (let res : Map Group × Result (Unit {0}) = elim b.1 [
          | err x ↦ (b.0, err x)
          | ok _ ↦ block_all rs b.0
        ] in
            res).1
          ≡ ok tt
        → (b.1 ≡ ok tt)
          × ((let res : Map Group × Result (Unit {0}) = elim b.1 [
            | err x ↦ (b.0, err x)
            | ok _ ↦ block_all rs b.0
          ] in
                res)
              ≡ block_all rs b.0)
    go (gs', err x) p = absurd (ground arith)
    go (gs', ok _) p = (refl, refl)

block_all-IsBlocked :
    (rs : Map Restriction) (gs : Map Group) (n id : String) (r : Restriction)
    → (block_all rs gs).1 ≡ ok tt
    → lookup id rs ≡ some r
    → contains n r.affected ≡ true
    → IsBlocked n (block_all rs gs).0
block_all-IsBlocked [] gs n id r done e h = absurd (ground arith)
block_all-IsBlocked ((k, s) ∷ rs) gs n id r done e h =
    let gs' = (block_names k s.reason s.affected gs).0 in
    let (first, rest) = block_all_ok k s rs gs done in
    let done' : (block_all rs gs').1 ≡ ok tt = rw rest at done in
    rw rest (elim (Bool-cases (str_eq k id)) [
      | inr other ↦ block_all-IsBlocked rs gs' n id r done' (ground arith) h
      | inl eq ↦
          IsBlocked-kept n gs' (block_all rs gs').0 (block_all-Keeps rs gs')
            (block_names-IsBlocked k s.reason s.affected gs n first (ground arith))
    ])

prepared-events : (now : ℤ) (d : Domain) → (prepared now d).events ≡ d.events
unfolding prepared expire_owner
prepared-events now d = ground arith

apply-IsBlocked :
    (c d' : Domain) (all : Map Restriction) (n id : String) (s : Restriction)
    → apply_restrictions c (ok all) ≡ (d', ok tt)
    → lookup id all ≡ some s
    → contains n s.affected ≡ true
    → IsBlocked n d'.groups
unfolding apply_restrictions
apply-IsBlocked c d' all n id s done l h =
    let went : (block_all all c.groups).1 ≡ ok tt =
      ap (λ (x : Domain × Result (Unit {0})). x.1) done in
    let left : (block_all all c.groups).0 ≡ d'.groups =
      ap (λ (x : Domain × Result (Unit {0})). x.0.groups) done in
    rw (← left) (block_all-IsBlocked all c.groups n id s went l h)

apply_failed : (c d' : Domain) (x : Error) → apply_restrictions c (err x) ≢ (d', ok tt)
unfolding apply_restrictions
apply_failed c d' x done = absurd (ground arith)

-- After a propagation that went through, every recorded event has a scope, and every group in it
-- has a blocker.
pub propagate-IsBlocked :
    (now : ℤ) (d d' : Domain) (id : String) (e : Event)
    → propagate now d ≡ (d', ok tt)
    → lookup id d.events ≡ some e
    → (names : NameSet) × (scope now (prepared now d) e ≡ ok names)
      × ((n : String)
          → contains n names ≡ true
          → (g : Group) × (lookup n d'.groups ≡ some g) × (non_empty g.blockers ≡ true))
unfolding propagate
propagate-IsBlocked now d d' id e done h =
    let c = prepared now d in
    let r = restrictions now c in
    elim (Result-cases r) [
      | inr (x, f) ↦ absurd (apply_failed c d' x (rw f at done))
      | inl (all, f) ↦
          let (names, s, l) = restrictions-lookup now c all id e f (rw (prepared-events now d) h) in
          (names, s, λ n m. apply-IsBlocked c d' all n id (noted names e) (rw f at done) l m)
    ]
