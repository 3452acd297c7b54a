-- ===== src/Safety/Scope.antt =====
-- Which groups an event restricts: conditionSatisfied, scope and restrictions of
-- robot_safety/src/domain.cpp. `now` is the clock's reading in the locked section.
pub mod Closure
use Prim.Native.String.{◌++◌ as append}
use new_robot.Base.{
  ℕ, zero, suc, String, Bool, true, false, ◌&&◌, ◌||◌, not, none, some, List, [], ◌∷◌, str_eq,
  is_empty, if◌then◌else◌, length,
}
use new_robot.Base.Int.{ℤ, ltb_ℤ}
use new_robot.Base.Names.{Map, NameSet, lookup, keys, contains, add_name, remove_name, emplace}
use new_robot.Base.Outcome.{Result, ok, err, out_of_range}
use new_robot.Safety.Types.{
  Severity, Evidence, Event, Axis, Group, Association, Domain, blank_event, evidence_eq,
}

unfoldable pub condition_satisfied : ℤ → Domain → Association → Bool
condition_satisfied now d rule = elim (lookup rule.condition d.conditions) [
  | none ↦ false
  | some it ↦
      evidence_eq it.value Evidence.satisfied
      && str_eq it.source rule.source
      && ltb_ℤ now it.valid_until_ns
]

-- The group of the event's axis; `axes_.at` throws at an axis that is not configured.
unfoldable pub axis_scope : Event → Map Axis → Result NameSet
axis_scope e axes = if is_empty e.axis then ok [] else elim (lookup e.axis axes) [
  | none ↦ err (out_of_range "map::at")
  | some axis ↦ ok (add_name axis.group [])
]

-- The groups of the axes behind a backend, added to `result`.
unfoldable pub backend_scope : String → Map Axis → NameSet → NameSet
backend_scope b [] result = result
backend_scope b ((_, axis) ∷ axes) result =
    backend_scope b axes (if str_eq axis.backend b then add_name axis.group result else result)

-- The groups that the event concerns by itself. An axis event with backend metadata is still an
-- axis event.
unfoldable pub direct_scope : Domain → Event → Result NameSet
unfolding axis_scope
direct_scope d e = elim e.severity [
  | Severity.global_stop ↦ ok (keys d.groups)
  | Severity.group_stop ↦ elim (axis_scope e d.axes) [
    | err x ↦ err x
    | ok own ↦ ok (elim (if is_empty e.group then own else add_name e.group own) [
      | [] ↦ backend_scope e.backend d.axes []
      | n ∷ ns ↦ n ∷ ns
    ])
  ]
  | _ ↦ ok []
]

-- Whether a rule applies to the event once its source group is restricted. A restriction that came
-- by another rule has an unknown mechanical state, so any category propagates it.
unfoldable pub is_active : ℤ → Domain → Event → Association → Bool
is_active now d e rule =
    (str_eq rule.category "*"
      || str_eq rule.category e.category
      || not (str_eq rule.source_group e.group))
    && not (condition_satisfied now d rule)

-- One round of the `for` over the rules: the names so far, and `changed`.
unfoldable pub sweep : (Association → Bool) → List Association → NameSet → Bool → NameSet × Bool
sweep active [] result changed = (result, changed)
sweep active (rule ∷ rules) result changed =
    let hit =
      contains rule.source_group result
      && active rule
      && not (contains rule.dependent_group result) in
    sweep active rules (if hit then add_name rule.dependent_group result else result)
      (changed || hit)

-- `while (changed)`, with fuel.
unfoldable pub saturate : ℕ → (Association → Bool) → List Association → NameSet → NameSet
saturate zero active rules result = result
saturate (suc fuel) active rules result =
    let (result', changed) = sweep active rules result false in
    let rest = saturate fuel active rules result' in if changed then rest else result'

-- Each round that changes something adds a group that some rule depends on, so one more round than
-- there are rules is enough.
unfoldable pub scope : ℤ → Domain → Event → Result NameSet
scope now d e = elim (direct_scope d e) [
  | err x ↦ err x
  | ok result ↦
      ok (saturate (suc (length d.associations)) (is_active now d e) d.associations result)
]

pub record Restriction : Type 0 where
  pub affected : NameSet
  pub reason : String

unfoldable pub event_restrictions :
    ℤ → Domain → Map Event → Map Restriction → Result (Map Restriction)
event_restrictions now d [] out = ok out
event_restrictions now d ((id, e) ∷ es) out = elim (scope now d e) [
  | err x ↦ err x
  | ok names ↦
      event_restrictions now d es (emplace id (record { affected = names; reason = e.reason }) out)
]

-- The event that stands for a group which is not ready.
abbrev pub unavailable : String → Event
unavailable g = record blank_event { group = g; category = "unavailable" }

abbrev pub not_ready : String → NameSet → Restriction
not_ready g names = record {
  affected = remove_name g names;
  reason = append g " not ready; associated physical conditions unknown/unsatisfied";
}

unfoldable pub readiness_restrictions :
    ℤ → Domain → Map Group → Map Restriction → Result (Map Restriction)
readiness_restrictions now d [] out = ok out
readiness_restrictions now d ((g, info) ∷ gs) out =
    let rest = readiness_restrictions now d gs out in
    if info.ready then rest else elim (scope now d (unavailable g)) [
      | err x ↦ err x
      | ok names ↦
          readiness_restrictions now d gs
            (emplace (append "unavailable:" g) (not_ready g names) out)
    ]

unfoldable pub restrictions : ℤ → Domain → Result (Map Restriction)
restrictions now d = elim (event_restrictions now d d.events []) [
  | err x ↦ err x
  | ok out ↦ readiness_restrictions now d d.groups out
]
