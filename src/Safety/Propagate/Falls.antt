-- ===== src/Safety/Propagate/Falls.antt =====
-- Propagation only takes permission away: a group keeps its state and epoch, or falls into Fault
-- under the next epoch.
use new_robot.Base.{String, ◌≡◌, refl, ◌≢◌, ◌⊎◌, inl, inr, [], ◌∷◌, arith, Bool-cases}
use new_robot.Base.Int.{ℤ}
use new_robot.Base.Names.{Map, NameSet, bound, adjust}
use new_robot.Base.Outcome.{Result, ok, err}
use new_robot.Safety.Types.{State, Group, Domain, next}
use new_robot.Safety.Scope.{Restriction, restrictions}
use new_robot.Safety.Evolution.{
  Evolves, Evolves-refl, Evolves-trans, Evolves-map_entries, Evolves-adjust,
}
use new_robot.Safety.Propagate.{
  refresh_groups, revoked, revoke_all, owner_lapsed, expire_owner, blocked, block_names, block_all,
  clear_blockers, prepared, apply_restrictions, propagate,
}

abbrev pub Falls : Group → Group → Type 0
Falls g g' =
    ((g'.state ≡ g.state) × (g'.epoch ≡ g.epoch))
    ⊎ ((g.state ≢ State.fault) × (g'.state ≡ State.fault) × (g'.epoch ≡ next g.epoch))

pub Falls-refl : (g : Group) → Falls g g
Falls-refl g = inl (refl, refl)

pub Falls-trans : (a b c : Group) → Falls a b → Falls b c → Falls a c
Falls-trans a b c p q = ground arith

pub revoked-Falls : (why : String) (g : Group) → Falls g (revoked why g)
unfolding revoked
revoked-Falls why g = ground arith

blocked-Falls : (id why : String) (g : Group) → Falls g (blocked id why g)
unfolding blocked
blocked-Falls id why g = ground arith

pub revoke_all-Falls : (why : String) (gs : Map Group) → Evolves Falls gs (revoke_all why gs)
unfolding revoke_all
revoke_all-Falls why gs = Evolves-map_entries Falls _ gs (λ n g. revoked-Falls why g)

pub refresh-Falls : (d : Domain) → Evolves Falls d.groups (refresh_groups d).groups
unfolding refresh_groups
refresh-Falls d = Evolves-map_entries Falls _ d.groups (λ n g. inl (refl, refl))

pub revoke_one-Falls :
    (k why : String) (gs : Map Group) → Evolves Falls gs (adjust k (revoked why) gs)
revoke_one-Falls k why gs =
    Evolves-adjust Falls k (revoked why) gs Falls-refl (λ g h. revoked-Falls why g)

block_names-Falls :
    (id why : String) (ns : NameSet) (gs : Map Group)
    → Evolves Falls gs (block_names id why ns gs).0
unfolding block_names
block_names-Falls id why [] gs = Evolves-refl Falls Falls-refl gs
block_names-Falls id why (n ∷ ns) gs = elim (Bool-cases (bound n gs)) [
  | inl e ↦ rw e (
      Evolves-trans Falls Falls-trans gs (adjust n (blocked id why) gs) _
        (Evolves-adjust Falls n (blocked id why) gs Falls-refl (λ g h. blocked-Falls id why g))
        (block_names-Falls id why ns (adjust n (blocked id why) gs)))
  | inr e ↦ rw e (Evolves-refl Falls Falls-refl gs)
]

block_all-Falls : (rs : Map Restriction) (gs : Map Group) → Evolves Falls gs (block_all rs gs).0
unfolding block_all
block_all-Falls [] gs = Evolves-refl Falls Falls-refl gs
block_all-Falls ((id, r) ∷ rs) gs =
    go (block_names id r.reason r.affected gs) (block_names-Falls id r.reason r.affected gs)
      (block_all-Falls rs (block_names id r.reason r.affected gs).0)
  where
    go :
        (b : Map Group × Result (Unit {0}))
        → Evolves Falls gs b.0
        → Evolves Falls b.0 (block_all rs b.0).0
        → Evolves Falls gs
            (let res : Map Group × Result (Unit {0}) = elim b.1 [
              | err x ↦ (b.0, err x)
              | ok _ ↦ block_all rs b.0
            ] in
              res).0
    go (gs', err x) p q = p
    go (gs', ok _) p q = Evolves-trans Falls Falls-trans gs gs' _ p q

pub expire_owner-Falls : (now : ℤ) (d : Domain) → Evolves Falls d.groups (expire_owner now d).groups
unfolding expire_owner
expire_owner-Falls now d = elim (Bool-cases (owner_lapsed now d)) [
  | inl e ↦ rw e (revoke_all-Falls "runtime owner heartbeat expired" d.groups)
  | inr e ↦ rw e (Evolves-refl Falls Falls-refl d.groups)
]

prepared-Falls : (now : ℤ) (d : Domain) → Evolves Falls d.groups (prepared now d).groups
unfolding prepared clear_blockers
prepared-Falls now d =
    Evolves-trans Falls Falls-trans d.groups (expire_owner now d).groups _
      (expire_owner-Falls now d)
      (Evolves-map_entries Falls _ (expire_owner now d).groups (λ n g. inl (refl, refl)))

apply-Falls :
    (c : Domain) (r : Result (Map Restriction))
    → Evolves Falls c.groups (apply_restrictions c r).0.groups
unfolding apply_restrictions
apply-Falls c (err x) = Evolves-refl Falls Falls-refl c.groups
apply-Falls c (ok rs) = block_all-Falls rs c.groups

-- Propagation leaves every group's state and epoch as they were, or takes the group from another
-- state to Fault with the next epoch; it removes no group.
pub propagate-Falls : (now : ℤ) (d : Domain) → Evolves Falls d.groups (propagate now d).0.groups
unfolding propagate
propagate-Falls now d =
    Evolves-trans Falls Falls-trans d.groups (prepared now d).groups _ (prepared-Falls now d)
      (apply-Falls (prepared now d) (restrictions now (prepared now d)))
