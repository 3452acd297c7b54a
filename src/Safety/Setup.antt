-- ===== src/Safety/Setup.antt =====
-- configure, registerWriter, axisGroup and grouped of robot_safety/src/domain.cpp.
use Prim.Native.String.{◌++◌ as append}
use new_robot.Base.{
  String, Bool, true, false, ◌&&◌, ◌||◌, not, Option, none, some, List, [], ◌∷◌, str_eq, is_empty,
  if◌then◌else◌, any_of,
}
use new_robot.Base.Names.{Map, NameSet, lookup, contains, add_name, insert, map_entries}
use new_robot.Base.Outcome.{Error, Result, ok, err, invalid_argument, logic_error, out_of_range}
use new_robot.Safety.Types.{State, Axis, Group, Association, Domain, state_eq, next, new_group}
use new_robot.Safety.Propagate.{refresh_groups}

abbrev pub non_empty {ℓ} : {A : Type ℓ} → List A → Bool
non_empty [] = false
non_empty (x ∷ xs) = true

abbrev pub writer_legacy : String × Bool → Bool
writer_legacy (_, grouped) = not grouped

abbrev pub writer_differs : Bool → String × Bool → Bool
writer_differs grouped (_, mode) = if grouped then not mode else mode

abbrev pub group_names : NameSet
group_names = "arm" ∷ "base" ∷ "flippers" ∷ "gripper" ∷ []

-- Armed or Running: a session that configuration must not disturb.
abbrev pub is_moving : State → Bool
is_moving s = state_eq s State.armed || state_eq s State.running

abbrev pub group_moving : String × Group → Bool
group_moving (_, g) = is_moving g.state

abbrev pub axis_invalid : String × Axis → Bool
axis_invalid (n, a) = is_empty n || not (contains a.group group_names) || is_empty a.backend

unfoldable pub present_groups : Map Axis → NameSet → NameSet
present_groups [] present = present
present_groups ((_, a) ∷ axes) present = present_groups axes (add_name a.group present)

abbrev pub same_names : NameSet → NameSet → Bool
same_names [] [] = true
same_names (a ∷ s) (b ∷ t) = str_eq a b && same_names s t
same_names _ _ = false

abbrev pub rule_key : Association → String
rule_key r = append r.source_group (
    append "\n"
      (append r.category (append "\n" (append r.dependent_group (append "\n" r.condition)))))

abbrev pub rule_invalid : Association → Bool
rule_invalid r =
    not (contains r.source_group group_names)
    || not (contains r.dependent_group group_names)
    || str_eq r.source_group r.dependent_group
    || is_empty r.category
    || is_empty r.condition
    || is_empty r.source

-- The loop over the rules: whether one is invalid or repeats a key.
unfoldable pub rules_rejected : List Association → NameSet → Bool
rules_rejected [] seen = false
rules_rejected (r ∷ rules) seen =
    rule_invalid r
    || contains (rule_key r) seen
    || rules_rejected rules (add_name (rule_key r) seen)

-- The group under a name, `groups_[name]` of the source, which makes it when it is missing.
abbrev pub group_or_new : String → Map Group → Group
group_or_new n gs = elim (lookup n gs) [ none ↦ new_group | some g ↦ g ]

unfoldable pub reset_groups : NameSet → Map Group → Map Group
reset_groups [] gs = gs
reset_groups (n ∷ ns) gs =
    let g = group_or_new n gs in
    reset_groups ns (
      insert n
        (record g {
          epoch = next g.epoch;
          state = State.stopped;
          reason = "configuration changed";
          blockers = [];
        })
        gs)

unfoldable pub configured : Map Axis → List Association → String → Domain → Domain
unfolding reset_groups
configured axes rules version d = refresh_groups (record d {
  axes = map_entries (λ n a. record a { ready = false; reason = "not reported" }) axes;
  associations = rules;
  configuration_version = version;
  conditions = [];
  groups = reset_groups group_names d.groups;
})

-- The first check that fails; every check stands before the first write.
unfoldable pub configure_error : Map Axis → List Association → String → Domain → Option Error
unfolding present_groups rules_rejected
configure_error axes rules version d =
    if any_of writer_legacy d.writers
    then some (logic_error "legacy writer already registered in group domain")
    else if is_empty version || not (non_empty axes)
    then some (invalid_argument "empty safety configuration")
    else if is_moving d.state
    then some (logic_error "halt legacy session before configuring")
    else if any_of group_moving d.groups
    then some (logic_error "halt all groups before configuring")
    else if any_of axis_invalid axes
    then some (invalid_argument "invalid axis ownership")
    else if not (same_names (present_groups axes []) group_names)
    then some (invalid_argument "all four groups must have axes")
    else if rules_rejected rules []
    then some (invalid_argument "invalid/duplicate association")
    else if non_empty d.events
    then some (logic_error "acknowledge safety events before configuring")
    else none

unfoldable pub configure :
    Map Axis → List Association → String → Domain → Domain × Result (Unit {0})
configure axes rules version d = elim (configure_error axes rules version d) [
  | some e ↦ (d, err e)
  | none ↦ (configured axes rules version d, ok tt)
]

unfoldable pub register_writer : String → Bool → Domain → Domain × Result (Unit {0})
register_writer backend grouped d =
    if is_empty backend || (not grouped && non_empty d.groups)
    then (d, err (invalid_argument "mixed writer modes"))
    else if any_of (writer_differs grouped) d.writers
    then (d, err (invalid_argument "mixed writer modes"))
    else (record d { writers = insert backend grouped d.writers }, ok tt)

unfoldable pub axis_group : String → String → Domain → Result String
axis_group axis backend d = elim (lookup axis d.axes) [
  | none ↦ err (out_of_range "map::at")
  | some a ↦
      if not (str_eq a.backend backend)
      then err (invalid_argument (append "axis backend ownership mismatch: " axis))
      else ok a.group
]
