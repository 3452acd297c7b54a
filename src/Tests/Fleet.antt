-- ===== src/Tests/Fleet.antt =====
-- A vehicle of four groups, for the concrete runs.
use new_robot.Base.{ℕ, String, true, [], ◌∷◌}
use new_robot.Base.Int.{pos}
use new_robot.Base.Names.{Map}
use new_robot.Safety.Types.{State, Event, Axis, Group, Association, Domain, blank_event, new_domain}

abbrev axis_of : String → String → Axis
axis_of g b = record { group = g; backend = b; ready = true; reason = "" }

abbrev group_in : State → ℕ → Group
group_in s n = record { state = s; epoch = n; ready = true; reason = ""; blockers = [] }

-- What moves the arm moves the base's centre of mass.
abbrev pub stowed_rule : Association
stowed_rule = record {
  source_group = "arm";
  category = "*";
  dependent_group = "base";
  condition = "arm_stowed";
  source = "arm_control";
}

abbrev pub fleet_groups : Map Group
fleet_groups =
    ("arm", group_in State.armed 2)
    ∷ ("base", group_in State.running 3)
    ∷ ("flippers", group_in State.stopped 1)
    ∷ ("gripper", group_in State.stopped 1)
    ∷ []

abbrev pub fleet : Domain
fleet = record new_domain {
  axes =
      ("arm_1", axis_of "arm" "can0")
      ∷ ("base_1", axis_of "base" "can1")
      ∷ ("flipper_1", axis_of "flippers" "can1")
      ∷ ("grip_1", axis_of "gripper" "can0")
      ∷ [];
  groups = fleet_groups;
  associations = stowed_rule ∷ [];
}

abbrev pub collision : Event
collision = record blank_event {
  id = "collision";
  axis = "arm_1";
  group = "arm";
  backend = "can0";
  reason = "collision";
  category = "contact";
  timestamp_ns = pos 5;
}

abbrev pub jam : Event
jam = record blank_event {
  id = "jam";
  axis = "grip_1";
  group = "gripper";
  backend = "can0";
  reason = "jam";
  timestamp_ns = pos 5;
}

-- The gripper is jammed, which is known.
abbrev pub jammed : Domain
jammed = record fleet { events = ("jam", jam) ∷ [] }
