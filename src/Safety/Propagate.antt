-- ===== src/Safety/Propagate.antt =====
-- Revocation: refreshGroups, revoke, ownerFresh, expireOwner and propagate of
-- robot_safety/src/domain.cpp.
pub mod Falls
pub mod Recorded
pub mod Blockers
use new_robot.Base.{
  ℕ, String, Bool, true, false, ◌&&◌, ◌||◌, not, List, [], ◌∷◌, ◌++◌, str_eq, if◌then◌else◌,
}
use new_robot.Base.Int.{ℤ, pos, ltb_ℤ}
use new_robot.Base.Names.{Map, NameSet, bound, adjust, map_entries}
use new_robot.Base.Outcome.{Result, ok, err, out_of_range}
use new_robot.Safety.Types.{State, Axis, Group, Domain, state_eq, next}
use new_robot.Safety.Scope.{Restriction, restrictions}

-- Whether every axis of the group is ready.
unfoldable pub group_ready : String → Map Axis → Bool
group_ready g [] = true
group_ready g ((_, axis) ∷ axes) = not (str_eq axis.group g && not axis.ready) && group_ready g axes

unfoldable pub refresh_groups : Domain → Domain
refresh_groups d = record d {
  groups = map_entries (λ n g. record g { ready = group_ready n d.axes }) d.groups;
}

-- The body of `revoke`: the epoch moves when the group was not in Fault yet.
unfoldable pub revoked : String → Group → Group
revoked why g = record g {
  epoch = if state_eq g.state State.fault then g.epoch else next g.epoch;
  state = State.fault;
  reason = why;
}

-- `for (const auto & g : groups_) revoke(g.first, reason)`.
unfoldable pub revoke_all : String → Map Group → Map Group
unfolding revoked
revoke_all why gs = map_entries (λ n g. revoked why g) gs

unfoldable pub owner_fresh : ℤ → Domain → Bool
owner_fresh now d = not d.owner_required || ltb_ℤ now d.owner_deadline

-- The owner asked for a lease, got one, and let it run out unnoticed so far.
unfoldable pub owner_lapsed : ℤ → Domain → Bool
unfolding owner_fresh
owner_lapsed now d =
    d.owner_required
    && ltb_ℤ (pos 0) d.owner_deadline
    && not d.owner_expired
    && not (owner_fresh now d)

unfoldable pub expire_owner : ℤ → Domain → Domain
unfolding revoke_all
expire_owner now d =
    if owner_lapsed now d
    then record d {
      owner_expired = true;
      global_reason =
          if d.global_inhibit then d.global_reason else "runtime owner heartbeat expired";
      global_inhibit = true;
      groups = revoke_all "runtime owner heartbeat expired" d.groups;
    }
    else d

-- One name of one restriction: the blocker is noted and the group revoked.
unfoldable pub blocked : String → String → Group → Group
unfolding revoked
blocked id why g = revoked why (record g { blockers = g.blockers ++ id ∷ [] })

-- The inner loop of `propagate`: `groups_.at` throws at a name that is no group.
unfoldable pub block_names : String → String → NameSet → Map Group → Map Group × Result (Unit {0})
block_names id why [] gs = (gs, ok tt)
block_names id why (n ∷ ns) gs =
    let rest = block_names id why ns (adjust n (blocked id why) gs) in
    if bound n gs then rest else (gs, err (out_of_range "map::at"))

-- The outer loop.
unfoldable pub block_all : Map Restriction → Map Group → Map Group × Result (Unit {0})
block_all [] gs = (gs, ok tt)
block_all ((id, r) ∷ rs) gs =
    let (gs', res) = block_names id r.reason r.affected gs in
    elim res [ err x ↦ (gs', err x) | ok _ ↦ block_all rs gs' ]

unfoldable pub clear_blockers : Map Group → Map Group
clear_blockers gs = map_entries (λ n g. record g { blockers = [] }) gs

-- The state when the restrictions are read: the lease checked, the blockers cleared.
unfoldable pub prepared : ℤ → Domain → Domain
prepared now d = let e = expire_owner now d in record e { groups = clear_blockers e.groups }

unfoldable pub apply_restrictions : Domain → Result (Map Restriction) → Domain × Result (Unit {0})
apply_restrictions c (err x) = (c, err x)
apply_restrictions c (ok rs) =
    let (gs, res) = block_all rs c.groups in (record c { groups = gs }, res)

unfoldable pub propagate : ℤ → Domain → Domain × Result (Unit {0})
propagate now d = let c = prepared now d in apply_restrictions c (restrictions now c)

-- What stands behind a call that may throw.
abbrev pub after {ℓ} :
    {A : Type ℓ} → Domain × Result (Unit {0}) → (Domain → Domain × Result A) → Domain × Result A
after (d, ok _) k = k d
after (d, err x) k = (d, err x)
