-- ===== src/Safety/Sessions.antt =====
-- The grouped sessions: arm, run, halt, permits, epoch, invalidate, poll, the global stop and the
-- owner's lease of robot_safety/src/domain.cpp.
use new_robot.Base.{
  ℕ, ◌-◌, ◌^◌, String, Bool, true, false, ◌&&◌, ◌||◌, not, none, some, List, [], ◌∷◌, ◌==◌,
  if◌then◌else◌, any_of,
}
use new_robot.Base.Int.{ℤ, pos, ltb_ℤ, leb_ℤ, eqb_ℤ, max_ℤ, ◌+ℤ◌, ◌-ℤ◌}
use new_robot.Base.Names.{Map, lookup, adjust}
use new_robot.Base.Outcome.{Result, ok, err, invalid_argument, out_of_range}
use new_robot.Safety.Types.{State, Severity, Event, Group, Domain, state_eq, severity_eq, next}
use new_robot.Safety.Propagate.{owner_fresh, expire_owner, revoke_all, propagate, after}
use new_robot.Safety.Setup.{is_moving, non_empty}

abbrev pub set_group : String → Group → Domain → Domain
set_group name g d = record d { groups = adjust name (λ _. g) d.groups }

-- `auto & g = groups_.at(name)` and what follows it.
abbrev pub with_group {ℓ} :
    {A : Type ℓ} → String → Domain → (Group → Domain × Result A) → Domain × Result A
with_group name d k = elim (lookup name d.groups) [
  | none ↦ (d, err (out_of_range "map::at"))
  | some g ↦ k g
]

-- What arm, run and permits all refuse: a global stop, a lost owner, an axis that is not ready, a
-- restriction.
unfoldable pub is_blocked : ℤ → Domain → Group → Bool
is_blocked now d g =
    d.global_inhibit || not (owner_fresh now d) || not g.ready || non_empty g.blockers

unfoldable pub armed_group : Group → Group
armed_group g = record g {
  epoch = if state_eq g.state State.armed then g.epoch else next g.epoch;
  state = State.armed;
  reason = "armed; explicit start and new command required";
}

unfoldable pub arm : ℤ → String → Domain → Domain × Result Bool
unfolding armed_group
arm now name d = after (propagate now d) λ c. with_group name c λ g.
    if is_blocked now c g || state_eq g.state State.running
    then (c, ok false)
    else (set_group name (armed_group g) c, ok true)

unfoldable pub run : ℤ → String → Domain → Domain × Result Bool
run now name d = after (propagate now d) λ c. with_group name c λ g.
    if is_blocked now c g || not (state_eq g.state State.armed)
    then (c, ok false)
    else (set_group name (record g { state = State.running; reason = "running" }) c, ok true)

unfoldable pub halted_group : Group → Group
halted_group g =
    let g' = record g { epoch = if is_moving g.state then next g.epoch else g.epoch } in
    if state_eq g.state State.fault
    then g'
    else record g' { state = State.stopped; reason = "halted" }

unfoldable pub halt : String → Domain → Domain × Result (Unit {0})
unfolding halted_group
halt name d = with_group name d λ g. (set_group name (halted_group g) d, ok tt)

-- A permission check commits the expiry of evidence under the same lock.
unfoldable pub permits : ℤ → String → ℕ → Domain → Domain × Result Bool
permits now name ep d = after (propagate now d) λ c.
    with_group name c
      λ g. (c, ok (not (is_blocked now c g) && state_eq g.state State.running && g.epoch == ep))

unfoldable pub group_epoch : ℤ → String → Domain → Domain × Result ℕ
group_epoch now name d = after (propagate now d) λ c. with_group name c λ g. (c, ok g.epoch)

-- Domain::group, by snapshot.
unfoldable pub group_info : ℤ → String → Domain → Domain × Result Group
group_info now name d = after (propagate now d) λ c. with_group name c λ g. (c, ok g)

-- Domain::groups.
unfoldable pub group_map : ℤ → Domain → Domain × Result (Map Group)
group_map now d = after (propagate now d) λ c. (c, ok c.groups)

unfoldable pub invalidated_group : Group → Group
invalidated_group g =
    let g' = record g { epoch = next g.epoch } in
    if state_eq g.state State.fault
    then g'
    else record g' { state = State.stopped; reason = "operation cancelled/halted" }

unfoldable pub invalidate : String → Domain → Domain × Result (Unit {0})
unfolding invalidated_group
invalidate name d = with_group name d λ g. (set_group name (invalidated_group g) d, ok tt)

unfoldable pub poll : ℤ → Domain → Domain × Result (Unit {0})
poll now d = propagate now d

-- The legacy state machine's part of a stop: `if (state_ != Fault) ++epoch_; state_ = Fault; …`.
unfoldable pub fault_legacy : String → Domain → Domain
fault_legacy why d = record d {
  epoch = if state_eq d.state State.fault then d.epoch else next d.epoch;
  state = State.fault;
  reason = why;
}

unfoldable pub global_stop : String → Domain → Domain
unfolding fault_legacy revoke_all
global_stop why d =
    fault_legacy why
      (record d { global_inhibit = true; global_reason = why; groups = revoke_all why d.groups })

abbrev pub stops_globally : String × Event → Bool
stops_globally (_, e) = severity_eq e.severity Severity.global_stop

unfoldable pub reset_global_stop : ℤ → Domain → Domain × Bool
reset_global_stop now d =
    if not (owner_fresh now d)
    then (d, false)
    else if any_of stops_globally d.events
    then (d, false)
    else (record d { owner_expired = false; global_inhibit = false; global_reason = "" }, true)

unfoldable pub require_owner_lease : Domain → Domain
require_owner_lease d = record d { owner_required = true }

abbrev pub int64_max : ℤ
int64_max = pos (2 ^ 63 - 1)

abbrev pub issue_time : ℤ → ℤ → ℤ
issue_time now issued_ns = if eqb_ℤ issued_ns (pos 0) then now else issued_ns

-- Whether a heartbeat is refused. The sum is only made where it cannot overflow.
abbrev pub lease_invalid : ℤ → ℤ → ℤ → Bool
lease_invalid now lifetime issued =
    leb_ℤ lifetime (pos 0)
    || ltb_ℤ issued (pos 0)
    || ltb_ℤ now issued
    || ltb_ℤ (int64_max -ℤ lifetime) issued
    || leb_ℤ (issued +ℤ lifetime) now

unfoldable pub renew_owner : ℤ → ℤ → ℤ → Domain → Domain × Result (Unit {0})
unfolding ◌+ℤ◌ ◌-ℤ◌
renew_owner now lifetime issued_ns d =
    let c = expire_owner now d in
    let issued = issue_time now issued_ns in
    if lease_invalid now lifetime issued
    then (c, err (invalid_argument "expired/future owner heartbeat"))
    else (record c { owner_deadline = max_ℤ c.owner_deadline (issued +ℤ lifetime) }, ok tt)

unfoldable pub globally_inhibited : ℤ → Domain → Domain × Bool
globally_inhibited now d = let c = expire_owner now d in (c, c.global_inhibit)

-- Domain::events.
unfoldable pub event_list : Map Event → List Event
event_list [] = []
event_list ((_, e) ∷ es) = e ∷ event_list es
