-- ===== src/Safety/Calls/Steps.antt =====
-- Every call of the interface moves every group by one of the moves.
use new_robot.Base.{
  ℕ, String, ◌≡◌, refl, sym, ◌∙◌, inl, inr, Bool, all_of, false, ◌&&◌, ◌||◌, not, some, List, [],
  ◌∷◌, arith, eq_iff, is_empty, if◌then◌else◌, any_of, Bool-cases, Option-cases,
}
use new_robot.Base.Int.{ℤ, pos, leb_ℤ}
use new_robot.Base.Names.{
  Map, NameSet, lookup, contains, insert, map_entries, lookup-insert, lookup-map_entries,
}
use new_robot.Base.Outcome.{ok}
use new_robot.Safety.Types.{State, Axis, Group, Association, Domain, next, state_eq}
use new_robot.Safety.Evolution.{EvolvesAt-adjust}
use new_robot.Safety.Propagate.{propagate, owner_fresh, refresh_groups, group_ready}
use new_robot.Safety.Propagate.Falls.{revoke_all-Falls, expire_owner-Falls}
use new_robot.Safety.Setup.{
  configure, configure_error, configured, writer_differs, non_empty, reset_groups, register_writer,
  group_or_new, group_names, group_moving, is_moving,
}
use new_robot.Safety.Sessions
use new_robot.Safety.Legacy
use new_robot.Safety.Calls.{Call, step}
use new_robot.Safety.Calls.Moves.{
  Moves, Moved, Moves-refl, Fell, with_group_cases, arm-Moved, run-Moved, halted-Moves,
  invalidated-Moves, same_some, stops, falls,
}
use new_robot.Safety.Calls.Fallen.{
  Fallen, Below, Below-refl, same, kept, propagated, if_Fallen, after-Fallen, query_Fallen,
  unprepare_axis-Fallen, warning-Fallen, report_axis-Fallen, report_backend-Fallen,
  condition-Fallen, event-Fallen, acknowledge-Fallen,
}

halt-Moved : (name : String) (d : Domain) → Moved (Call.halts name) d (Sessions.halt name d).0
unfolding Sessions.halt
halt-Moved name d =
    let c = Call.halts name in
    with_group_cases (Moved c d) name d _ (Fell c d d (Below-refl d)) λ g e.
      EvolvesAt-adjust (Moves c) name _ d.groups (Moves-refl c)
        λ h eh. rw (same_some (sym eh ∙ e)) (halted-Moves c name g)

invalidate-Moved :
    (name : String) (d : Domain) → Moved (Call.invalidates name) d (Sessions.invalidate name d).0
unfolding Sessions.invalidate
invalidate-Moved name d =
    let c = Call.invalidates name in
    with_group_cases (Moved c d) name d _ (Fell c d d (Below-refl d)) λ g e.
      EvolvesAt-adjust (Moves c) name _ d.groups (Moves-refl c)
        λ h eh. rw (same_some (sym eh ∙ e)) (invalidated-Moves c name g)

halt_vehicle-Moved : (d : Domain) → Moved Call.halts_vehicle d (Legacy.halt_vehicle d)
unfolding Legacy.halt_vehicle
halt_vehicle-Moved d n g h = (
  Legacy.stopped_group g,
  ground (arith, lookup-map_entries n (λ m k. Legacy.stopped_group k) d.groups),
  unfold Legacy.stopped_group in grind (arith, falls, stops),
)

abbrev Distinct : NameSet → Type 0
Distinct [] = Unit {0}
Distinct (n ∷ ns) = (contains n ns ≡ false) × Distinct ns

abbrev reset_group : Group → Group
reset_group g = record g {
  epoch = next g.epoch;
  state = State.stopped;
  reason = "configuration changed";
  blockers = [];
}

lookup-reset_groups :
    (ns : NameSet) (gs : Map Group) (n : String)
    → Distinct ns
    → lookup n (reset_groups ns gs)
      ≡ (if contains n ns then some (reset_group (group_or_new n gs)) else lookup n gs)
unfolding reset_groups
lookup-reset_groups [] gs n h = refl
lookup-reset_groups (m ∷ ns) gs n h =
    let g = reset_group (group_or_new m gs) in
    ground
      (arith, lookup-reset_groups ns (insert m g gs) n h.1, lookup-insert m n g gs, eq_iff m n, h.0)

configured-Moved :
    (axes : Map Axis) (rules : List Association) (version : String) (d : Domain) (c : Call)
    → Moved c d (configured axes rules version d)
unfolding configured refresh_groups
configured-Moved axes rules version d c n g h =
    let made = map_entries (λ n a. record a { ready = false; reason = "not reported" }) axes in
    elim (Bool-cases (contains n group_names)) [
      | inl e ↦ (
        record (reset_group g) { ready = group_ready n made },
        ground (
          arith,
          lookup-map_entries n (λ m k. record k { ready = group_ready m made })
              (reset_groups group_names d.groups),
          lookup-reset_groups group_names d.groups n (refl, (refl, (refl, (refl, tt)))),
        ),
        stops refl refl,
      )
      | inr e ↦ (
        record g { ready = group_ready n made },
        ground (
          arith,
          lookup-map_entries n (λ m k. record k { ready = group_ready m made })
              (reset_groups group_names d.groups),
          lookup-reset_groups group_names d.groups n (refl, (refl, (refl, (refl, tt)))),
        ),
        falls (inl (refl, refl)),
      )
    ]

configure-Moved :
    (axes : Map Axis) (rules : List Association) (version : String) (d : Domain)
    → Moved (Call.configures axes rules version) d (configure axes rules version d).0
unfolding configure
configure-Moved axes rules version d =
    let c = Call.configures axes rules version in
    elim (Option-cases (configure_error axes rules version d)) [
      | inl e ↦ rw (e, configure) (configured-Moved axes rules version d c)
      | inr (x, e) ↦ rw (e, configure) (Fell c d d (Below-refl d))
    ]

-- The calls that say nothing of a group, or at worst make it fall.
register-Below : (b : String) (m : Bool) (d : Domain) → Fallen d (register_writer b m d)
unfolding register_writer
register-Below b m d =
    if_Fallen d (is_empty b || (not m && non_empty d.groups)) _ _ (same d _)
      (if_Fallen d (any_of (writer_differs m) d.writers) _ _ (same d _) (kept d _ _ (Below-refl d)))

reset_global_stop-Fallen : (now : ℤ) (d : Domain) → Fallen d (Sessions.reset_global_stop now d)
unfolding Sessions.reset_global_stop
reset_global_stop-Fallen now d = if_Fallen d (not (owner_fresh now d)) _ _ (same d _) (
    if_Fallen d (any_of Sessions.stops_globally d.events) _ _ (same d _)
      (kept d _ _ (Below-refl d)))

renew_owner-Fallen :
    (now lifetime issued : ℤ) (d : Domain) → Fallen d (Sessions.renew_owner now lifetime issued d)
unfolding Sessions.renew_owner
renew_owner-Fallen now lifetime issued d =
    if_Fallen d (Sessions.lease_invalid now lifetime (Sessions.issue_time now issued)) _ _
      (kept d _ _ (expire_owner-Falls now d)) (kept d _ _ (expire_owner-Falls now d))

report-Below :
    (component : String) (ready : Bool) (d : Domain) → Below d (Legacy.report component ready d)
unfolding Legacy.report
report-Below component ready d = elim (Bool-cases (not ready && any_of group_moving d.groups)) [
  | inl e ↦ elim (Bool-cases (not ready && is_moving d.state)) [
    | inl m ↦ rw e (rw m (revoke_all-Falls _ d.groups))
    | inr m ↦ rw e (rw m (revoke_all-Falls _ d.groups))
  ]
  | inr e ↦ elim (Bool-cases (not ready && is_moving d.state)) [
    | inl m ↦ rw e (rw m (Below-refl d))
    | inr m ↦ rw e (rw m (Below-refl d))
  ]
]

arm_vehicle-Fallen : (d : Domain) → Fallen d (Legacy.arm_vehicle d)
unfolding Legacy.arm_vehicle
arm_vehicle-Fallen d = if_Fallen d (d.global_inhibit || non_empty d.groups) _ _ (same d _) (
    if_Fallen d (not (all_of Legacy.component_ready d.ready)) _ _ (same d _)
      (kept d _ _ (Below-refl d)))

run_vehicle-Fallen : (d : Domain) → Fallen d (Legacy.run_vehicle d)
unfolding Legacy.run_vehicle
run_vehicle-Fallen d =
    if_Fallen d (not (state_eq d.state State.armed)) _ _ (same d _) (kept d _ _ (Below-refl d))

observe_period-Below : (ns : ℤ) (d : Domain) → Below d (Legacy.observe_period ns d)
unfolding Legacy.observe_period
observe_period-Below ns d =
    elim (Bool-cases (
      (not (any_of Legacy.group_running d.groups) && not (state_eq d.state State.running))
      || leb_ℤ ns (pos 0))) [ inl e ↦ rw e (Below-refl d) | inr e ↦ rw e (Below-refl d) ]

fault_vehicle-Below : (why : String) (d : Domain) → Below d (Legacy.fault_vehicle why d)
unfolding Legacy.fault_vehicle
fault_vehicle-Below why d = elim (Bool-cases (non_empty d.groups)) [
  | inl e ↦ rw e (revoke_all-Falls why d.groups)
  | inr e ↦ rw e (Below-refl d)
]

global_stop-Below : (why : String) (d : Domain) → Below d (Sessions.global_stop why d)
unfolding Sessions.global_stop
global_stop-Below why d = revoke_all-Falls why d.groups

globally_inhibited-Fallen : (now : ℤ) (d : Domain) → Fallen d (Sessions.globally_inhibited now d)
unfolding Sessions.globally_inhibited
globally_inhibited-Fallen now d = kept d _ _ (expire_owner-Falls now d)

permits-Fallen :
    (now : ℤ) (name : String) (ep : ℕ) (d : Domain) → Fallen d (Sessions.permits now name ep d)
unfolding Sessions.permits
permits-Fallen now name ep d = query_Fallen now name d _

group_epoch-Fallen :
    (now : ℤ) (name : String) (d : Domain) → Fallen d (Sessions.group_epoch now name d)
unfolding Sessions.group_epoch
group_epoch-Fallen now name d = query_Fallen now name d (λ c g. ok g.epoch)

group_info-Fallen :
    (now : ℤ) (name : String) (d : Domain) → Fallen d (Sessions.group_info now name d)
unfolding Sessions.group_info
group_info-Fallen now name d = query_Fallen now name d (λ c g. ok g)

group_map-Fallen : (now : ℤ) (d : Domain) → Fallen d (Sessions.group_map now d)
unfolding Sessions.group_map
group_map-Fallen now d =
    after-Fallen d (propagate now d) _ (propagated now d d (Below-refl d)) λ p. kept d _ _ p

poll-Fallen : (now : ℤ) (d : Domain) → Fallen d (Sessions.poll now d)
unfolding Sessions.poll
poll-Fallen now d = propagated now d d (Below-refl d)

require_owner-Below : (d : Domain) → Below d (Sessions.require_owner_lease d)
unfolding Sessions.require_owner_lease
require_owner-Below d = Below-refl d

lowered {ℓ} : {A : Type ℓ} (c : Call) (d : Domain) {r : Domain × A} → Fallen d r → Moved c d r.0
lowered c d {r} f = Fell c d r.0 f.fallen

-- Every call, with every outcome, moves every group that there is by one of the moves, and no call
-- removes a group.
pub step-Moved : (d : Domain) (now : ℤ) (c : Call) → Moved c d (step d (now, c))
unfolding step
step-Moved d now (Call.configures axes rules version) = configure-Moved axes rules version d
step-Moved d now (Call.registers b m) = lowered _ d (register-Below b m d)
step-Moved d now (Call.unprepares n why) = lowered _ d (unprepare_axis-Fallen now n why d)
step-Moved d now (Call.warns n a why) = lowered _ d (warning-Fallen now n a why d)
step-Moved d now (Call.reports_axis n r why code cat) =
    lowered _ d (report_axis-Fallen now n r why code cat d)
step-Moved d now (Call.reports_backend n r why) = lowered _ d (report_backend-Fallen now n r why d)
step-Moved d now (Call.conditions n v s u) = lowered _ d (condition-Fallen now n v s u d)
step-Moved d now (Call.events e) = lowered _ d (event-Fallen now e d)
step-Moved d now (Call.acknowledges id) = lowered _ d (acknowledge-Fallen now id d)
step-Moved d now (Call.arms n) = arm-Moved now n d
step-Moved d now (Call.runs n) = run-Moved now n d
step-Moved d now (Call.halts n) = halt-Moved n d
step-Moved d now (Call.invalidates n) = invalidate-Moved n d
step-Moved d now (Call.permission n ep) = lowered _ d (permits-Fallen now n ep d)
step-Moved d now (Call.reads_epoch n) = lowered _ d (group_epoch-Fallen now n d)
step-Moved d now (Call.reads_group n) = lowered _ d (group_info-Fallen now n d)
step-Moved d now Call.reads_groups = lowered _ d (group_map-Fallen now d)
step-Moved d now Call.polls = lowered _ d (poll-Fallen now d)
step-Moved d now (Call.stops_all why) =
    Fell _ d (Sessions.global_stop why d) (global_stop-Below why d)
step-Moved d now Call.resets_stop = lowered _ d (reset_global_stop-Fallen now d)
step-Moved d now Call.requires_owner =
    Fell _ d (Sessions.require_owner_lease d) (require_owner-Below d)
step-Moved d now (Call.renews l i) = lowered _ d (renew_owner-Fallen now l i d)
step-Moved d now Call.reads_inhibit = lowered _ d (globally_inhibited-Fallen now d)
step-Moved d now (Call.reports n r) = Fell _ d (Legacy.report n r d) (report-Below n r d)
step-Moved d now (Call.faults why) =
    Fell _ d (Legacy.fault_vehicle why d) (fault_vehicle-Below why d)
step-Moved d now Call.arms_vehicle = lowered _ d (arm_vehicle-Fallen d)
step-Moved d now Call.runs_vehicle = lowered _ d (run_vehicle-Fallen d)
step-Moved d now Call.halts_vehicle = halt_vehicle-Moved d
step-Moved d now (Call.observes ns) =
    Fell _ d (Legacy.observe_period ns d) (observe_period-Below ns d)
