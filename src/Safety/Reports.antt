-- ===== src/Safety/Reports.antt =====
-- What the drivers report: unprepareAxis, warning, reportAxis, reportBackend, condition, event and
-- acknowledge of robot_safety/src/domain.cpp. Each call is one locked section, and the clock's
-- readings in it are the one instant `now`.
use Prim.Native.String.{◌++◌ as append}
use text.Mathlib.Text.{starts_with}
use new_robot.Base.{
  ℕ, String, Bool, true, false, ◌&&◌, ◌||◌, not, none, some, [], ◌∷◌, str_eq, is_empty,
  if◌then◌else◌, any_of,
}
use new_robot.Base.Int.{ℤ, pos, ltb_ℤ, leb_ℤ, eqb_ℤ}
use new_robot.Base.Names.{Map, lookup, insert, emplace, erase, adjust, bound, map_entries}
use new_robot.Base.Outcome.{Result, ok, err, invalid_argument, logic_error, out_of_range}
use new_robot.Safety.Types.{
  State, Severity, Evidence, Event, Axis, Association, Domain, blank_event, state_eq, severity_eq,
  evidence_eq, next,
}
use new_robot.Safety.Scope.{scope}
use new_robot.Safety.Propagate.{refresh_groups, revoked, propagate, after}
use new_robot.Safety.Setup.{is_moving}

abbrev pub set_axis : Bool → String → Axis → Axis
set_axis ready why a = record a { ready = ready; reason = why }

unfoldable pub unprepare_axis : ℤ → String → String → Domain → Domain × Result (Unit {0})
unprepare_axis now name why d = elim (lookup name d.axes) [
  | none ↦ (d, err (out_of_range "map::at"))
  | some axis ↦
      let d' = record d { axes = adjust name (set_axis false why) d.axes } in
      elim (lookup axis.group d.groups) [
        | none ↦ (d', err (out_of_range "map::at"))
        | some g ↦ propagate now (
            refresh_groups (
              if is_moving g.state
              then record d' { groups = adjust axis.group (revoked why) d.groups }
              else d'))
      ]
]

abbrev pub warning_event : ℤ → String → Axis → String → Event
warning_event now name axis why = record blank_event {
  id = append "warning:" name;
  axis = name;
  group = axis.group;
  backend = axis.backend;
  severity = Severity.warn;
  category = "feedback_warning";
  reason = why;
  timestamp_ns = now;
  recovery = "stable feedback window";
}

abbrev pub count_of : String → Map ℕ → ℕ
count_of k m = elim (lookup k m) [ none ↦ 0 | some n ↦ n ]

unfoldable pub warning : ℤ → String → Bool → String → Domain → Domain × Result (Unit {0})
warning now name active why d = elim (lookup name d.axes) [
  | none ↦ (d, err (out_of_range "map::at"))
  | some axis ↦
      let id = append "warning:" name in
      if not active
      then (record d { events = erase id d.events }, ok tt)
      else if bound id d.events
      then (d, ok tt)
      else (
        record d {
          events = emplace id (warning_event now name axis why) d.events;
          warning_counts = insert name (next (count_of name d.warning_counts)) d.warning_counts;
        },
        ok tt,
      )
]

abbrev pub readiness_event : ℤ → String → Axis → String → String → String → Event
readiness_event now name axis why code category = record blank_event {
  id = append "readiness:" name;
  axis = name;
  group = axis.group;
  backend = axis.backend;
  category = category;
  code = code;
  reason = append name (append ": " why);
  recovery = "fresh feedback, explicit acknowledgement, arm/start and new command";
  timestamp_ns = now;
}

unfoldable pub report_axis :
    ℤ → String → Bool → String → String → String → Domain → Domain × Result (Unit {0})
report_axis now name ready why code category d = elim (lookup name d.axes) [
  | none ↦ (d, err (out_of_range "map::at"))
  | some axis ↦
      let d' = record d { axes = adjust name (set_axis ready why) d.axes } in
      let e = readiness_event now name axis why code category in
      propagate now
        (refresh_groups (if ready then d' else record d' { events = emplace e.id e d.events }))
]

abbrev pub on_backend : String → String × Axis → Bool
on_backend name (_, a) = str_eq a.backend name

-- Restoring the bus does not prove that each drive has trustworthy feedback.
abbrev pub lose_backend : String → Bool → String → Axis → Axis
lose_backend name ready why a =
    if str_eq a.backend name && not ready then set_axis false why a else a

abbrev pub backend_event : ℤ → String → String → Event
backend_event now name why = record blank_event {
  id = append "backend:" name;
  backend = name;
  category = "transport";
  reason = why;
  timestamp_ns = now;
  recovery = "restore shared resource and affected axes";
}

unfoldable pub report_backend : ℤ → String → Bool → String → Domain → Domain × Result (Unit {0})
report_backend now name ready why d =
    let d' = record d { axes = map_entries (λ n a. lose_backend name ready why a) d.axes } in
    let e = backend_event now name why in
    if not (any_of (on_backend name) d.axes)
    then (d', err (invalid_argument "unknown backend"))
    else propagate now
        (refresh_groups (if ready then d' else record d' { events = emplace e.id e d.events }))

abbrev pub rule_for : String → String → Association → Bool
rule_for name source rule = str_eq rule.condition name && str_eq rule.source source

abbrev pub evidence_invalid : ℤ → String → Evidence → String → ℤ → Bool
evidence_invalid now name value source until =
    is_empty name
    || is_empty source
    || (not (evidence_eq value Evidence.unknown) && leb_ℤ until now)

unfoldable pub condition : ℤ → String → Evidence → String → ℤ → Domain → Domain × Result (Unit {0})
condition now name value source until d =
    if evidence_invalid now name value source until
    then (d, err (invalid_argument "invalid/expired condition evidence"))
    else if not (any_of (rule_for name source) d.associations)
    then (d, err (invalid_argument "condition source is not configured"))
    else after (propagate now d) λ c. propagate now (record c {
      conditions =
          insert name (record { value = value; source = source; valid_until_ns = until })
            c.conditions;
    })

abbrev pub is_reserved : String → Bool
is_reserved id =
    starts_with id "readiness:"
    || starts_with id "backend:"
    || starts_with id "unavailable:"
    || starts_with id "warning:"

-- The event with its axis's ownership filled in.
unfoldable pub owned_event : Event → Domain → Result Event
owned_event e d = if is_empty e.axis then ok e else elim (lookup e.axis d.axes) [
  | none ↦ err (out_of_range "map::at")
  | some a ↦
      if (not (is_empty e.group) && not (str_eq e.group a.group))
        || (not (is_empty e.backend) && not (str_eq e.backend a.backend))
      then err (invalid_argument "event source ownership mismatch")
      else ok (record e { group = a.group; backend = a.backend })
]

abbrev pub same_occurrence : Event → Event → Bool
same_occurrence a b =
    str_eq a.axis b.axis
    && str_eq a.group b.group
    && str_eq a.backend b.backend
    && str_eq a.category b.category
    && str_eq a.code b.code
    && severity_eq a.severity b.severity

-- A new occurrence: noted, and a global stop latched.
unfoldable pub record_event : Event → Domain → Domain
record_event e d =
    let d' = record d { events = emplace e.id e d.events } in
    if severity_eq e.severity Severity.global_stop
    then record d' {
      global_inhibit = true;
      global_reason = e.reason;
      epoch = if state_eq d.state State.fault then d.epoch else next d.epoch;
      state = State.fault;
      reason = e.reason;
    }
    else d'

-- `e.severity == Severity::GroupStop && scope(e).empty()`.
unfoldable pub scope_missing : ℤ → Domain → Event → Result Bool
scope_missing now d e =
    if severity_eq e.severity Severity.group_stop
    then elim (scope now d e) [ err x ↦ err x | ok [] ↦ ok true | ok (n ∷ ns) ↦ ok false ]
    else ok false

-- From the lookup of the id on.
unfoldable pub admit_event : ℤ → Event → Domain → Domain × Result (Unit {0})
unfolding record_event
admit_event now e d = elim (lookup e.id d.events) [
  | some old ↦
      if not (same_occurrence old e)
      then (d, err (invalid_argument "event id reused with different source/classification"))
      else propagate now d
  | none ↦ propagate now (record_event e d)
]

-- From the scope's check on.
unfoldable pub admit_scoped : ℤ → Event → Domain → Result Bool → Domain × Result (Unit {0})
unfolding admit_event
admit_scoped now e d (err x) = (d, err x)
admit_scoped now e d (ok true) = (d, err (invalid_argument "event scope required"))
admit_scoped now e d (ok false) =
    admit_event now
      (record e { timestamp_ns = if eqb_ℤ e.timestamp_ns (pos 0) then now else e.timestamp_ns }) d

-- From the group's check on.
unfoldable pub admit_owned : ℤ → Domain → Result Event → Domain × Result (Unit {0})
unfolding scope_missing admit_scoped
admit_owned now d (err x) = (d, err x)
admit_owned now d (ok e) =
    if not (is_empty e.group) && not (bound e.group d.groups)
    then (d, err (invalid_argument "unknown event group"))
    else admit_scoped now e d (scope_missing now d e)

unfoldable pub event : ℤ → Event → Domain → Domain × Result (Unit {0})
unfolding owned_event admit_owned
event now value d =
    if ltb_ℤ value.timestamp_ns (pos 0)
    then (d, err (invalid_argument "invalid event timestamp"))
    else if is_reserved value.id
    then (d, err (invalid_argument "reserved internal event namespace"))
    else if is_empty value.id || is_empty value.reason
    then (d, err (invalid_argument "event id/reason required"))
    else admit_owned now d (owned_event value d)

-- An axis that the event's acknowledgement waits for.
abbrev pub is_source : Event → String × Axis → Bool
is_source e (n, a) =
    (not (is_empty e.axis) && str_eq n e.axis)
    || (is_empty e.axis && not (is_empty e.group) && str_eq a.group e.group)
    || (is_empty e.axis && is_empty e.group && str_eq a.backend e.backend)

abbrev pub source_unready : Event → String × Axis → Bool
source_unready e (n, a) = is_source e (n, a) && not a.ready

abbrev pub is_stop : Severity → Bool
is_stop s = severity_eq s Severity.group_stop || severity_eq s Severity.global_stop

unfoldable pub acknowledge : ℤ → String → Domain → Domain × Result (Unit {0})
acknowledge now id d = after (propagate now d) λ c. elim (lookup id c.events) [
  | none ↦ (c, err (invalid_argument "unknown event"))
  | some e ↦
      if is_stop e.severity && any_of (source_unready e) c.axes
      then (c, err (logic_error "source not ready"))
      else propagate now (record c { events = erase id c.events })
]
