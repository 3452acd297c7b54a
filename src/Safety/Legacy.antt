-- ===== src/Safety/Legacy.antt =====
-- The legacy whole-vehicle session of robot_safety/src/domain.cpp: report, fault, arm, run, halt,
-- permits without a group, and observePeriod.
use Prim.Native.String.{◌++◌ as append}
use new_robot.Base.{
  ℕ, ◌+◌, String, Bool, true, false, ◌&&◌, ◌||◌, not, ◌==◌, ltb, if◌then◌else◌, any_of, all_of,
}
use Prim.Native.Nat.{min, max}
use new_robot.Base.Int.{ℤ, pos, pos_part, leb_ℤ}
use new_robot.Base.Names.{insert, map_entries}
use new_robot.Safety.Types.{State, Group, Domain, state_eq, next, u64}
use new_robot.Safety.Propagate.{revoke_all}
use new_robot.Safety.Setup.{is_moving, group_moving, non_empty}
use new_robot.Safety.Sessions.{fault_legacy}

-- A component that reports while groups are configured stops the vehicle if one moves.
unfoldable pub report : String → Bool → Domain → Domain
unfolding revoke_all
report component ready d =
    let a = record d { ready = insert component ready d.ready } in
    let lost = append component " lost readiness (legacy report)" in
    let b =
      if not ready && any_of group_moving a.groups
      then record a {
        global_inhibit = true;
        global_reason = lost;
        groups = revoke_all lost a.groups;
      }
      else a in
    if not ready && is_moving b.state
    then record b {
      state = State.fault;
      epoch = next b.epoch;
      reason = append component " lost readiness";
    }
    else b

unfoldable pub fault_vehicle : String → Domain → Domain
unfolding revoke_all fault_legacy
fault_vehicle why d = fault_legacy why (
    if non_empty d.groups
    then record d { global_inhibit = true; global_reason = why; groups = revoke_all why d.groups }
    else d)

abbrev pub component_ready : String × Bool → Bool
component_ready (_, r) = r

unfoldable pub arm_vehicle : Domain → Domain × Bool
arm_vehicle d =
    if d.global_inhibit || non_empty d.groups
    then (d, false)
    else if not (all_of component_ready d.ready)
    then (d, false)
    else (record d { epoch = next d.epoch; state = State.armed; reason = "armed" }, true)

unfoldable pub run_vehicle : Domain → Domain × Bool
run_vehicle d =
    if not (state_eq d.state State.armed)
    then (d, false)
    else (record d { state = State.running; reason = "running" }, true)

unfoldable pub stopped_group : Group → Group
stopped_group g =
    if is_moving g.state
    then record g { epoch = next g.epoch; state = State.stopped; reason = "global halt" }
    else g

unfoldable pub halt_vehicle : Domain → Domain
unfolding stopped_group
halt_vehicle d = record d {
  epoch = next d.epoch;
  state = State.stopped;
  reason = "halted";
  groups = map_entries (λ n g. stopped_group g) d.groups;
}

unfoldable pub vehicle_permits : ℕ → Domain → Bool
vehicle_permits ep d = not d.global_inhibit && state_eq d.state State.running && ep == d.epoch

abbrev pub group_running : String × Group → Bool
group_running (_, g) = state_eq g.state State.running

-- Report observed misses against 200 Hz; never claim a real-time guarantee.
unfoldable pub observe_period : ℤ → Domain → Domain
observe_period nanoseconds d =
    let ns = pos_part nanoseconds in
    if (not (any_of group_running d.groups) && not (state_eq d.state State.running))
      || leb_ℤ nanoseconds (pos 0)
    then d
    else record d {
      samples = u64 (d.samples + 1);
      sum_ns = u64 (d.sum_ns + ns);
      max_ns = max d.max_ns ns;
      min_ns = min d.min_ns ns;
      late = if ltb 7500000 ns then u64 (d.late + 1) else d.late;
    }
