-- ===== src/Safety/Types.antt =====
-- The state of robot_safety/include/robot_safety/domain.hpp: axes, groups, associations, evidence
-- and events, and the whole Domain. Times are nanoseconds of the monotonic clock.
use new_robot.Base.{ℕ, ◌+◌, ◌%◌, ◌^◌, ◌-◌, String, Bool, true, false, List, [], ◌∷◌}
use new_robot.Base.Int.{ℤ, pos}
use new_robot.Base.Names.{Map}

pub data State : Type 0 where
  stopped armed running fault : State

pub data Severity : Type 0 where
  reject warn group_stop global_stop : Severity

pub data Evidence : Type 0 where
  unknown satisfied unsatisfied : Evidence

abbrev pub state_eq : State → State → Bool
state_eq State.stopped State.stopped = true
state_eq State.armed State.armed = true
state_eq State.running State.running = true
state_eq State.fault State.fault = true
state_eq _ _ = false

abbrev pub severity_eq : Severity → Severity → Bool
severity_eq Severity.reject Severity.reject = true
severity_eq Severity.warn Severity.warn = true
severity_eq Severity.group_stop Severity.group_stop = true
severity_eq Severity.global_stop Severity.global_stop = true
severity_eq _ _ = false

abbrev pub evidence_eq : Evidence → Evidence → Bool
evidence_eq Evidence.unknown Evidence.unknown = true
evidence_eq Evidence.satisfied Evidence.satisfied = true
evidence_eq Evidence.unsatisfied Evidence.unsatisfied = true
evidence_eq _ _ = false

pub record Event : Type 0 where
  pub id : String
  pub axis : String
  pub group : String
  pub backend : String
  pub category : String
  pub code : String
  pub reason : String
  pub recovery : String
  pub severity : Severity
  pub timestamp_ns : ℤ
  pub evidence_valid : Bool

-- `Event e;` of the source: the members' initialisers.
abbrev pub blank_event : Event
blank_event = record {
  id = "";
  axis = "";
  group = "";
  backend = "";
  category = "";
  code = "";
  reason = "";
  recovery = "";
  severity = Severity.group_stop;
  timestamp_ns = pos 0;
  evidence_valid = false;
}

pub record Axis : Type 0 where
  pub group : String
  pub backend : String
  pub ready : Bool
  pub reason : String

pub record Group : Type 0 where
  pub state : State
  pub epoch : ℕ  -- uint64_t
  pub ready : Bool
  pub reason : String
  pub blockers : List String

abbrev pub new_group : Group
new_group = record {
  state = State.stopped;
  epoch = 0;
  ready = false;
  reason = "stopped";
  blockers = [];
}

pub record Association : Type 0 where
  pub source_group : String
  pub category : String
  pub dependent_group : String
  pub condition : String
  pub source : String

pub record Condition : Type 0 where
  pub value : Evidence
  pub source : String
  pub valid_until_ns : ℤ

-- uint64_t `++n` and `n + m`.
abbrev pub u64 : ℕ → ℕ
u64 n = n % 2 ^ 64

abbrev pub next : ℕ → ℕ
next n = u64 (n + 1)

pub record Domain : Type 0 where
  pub axes : Map Axis
  pub writers : Map Bool
  pub groups : Map Group
  pub associations : List Association
  pub conditions : Map Condition
  pub events : Map Event
  pub warning_counts : Map ℕ
  pub configuration_version : String
  pub global_inhibit : Bool
  pub global_reason : String
  pub owner_required : Bool
  pub owner_deadline : ℤ
  pub owner_expired : Bool
  pub ready : Map Bool
  pub state : State
  pub epoch : ℕ
  pub reason : String
  pub samples : ℕ
  pub sum_ns : ℕ
  pub max_ns : ℕ
  pub min_ns : ℕ
  pub late : ℕ

-- Domain::Domain; the clock is an argument of each call.
unfoldable pub new_domain : Domain
new_domain = record {
  axes = [];
  writers = [];
  groups = [];
  associations = [];
  conditions = [];
  events = [];
  warning_counts = [];
  configuration_version = "";
  global_inhibit = false;
  global_reason = "";
  owner_required = false;
  owner_deadline = pos 0;
  owner_expired = false;
  ready = ("CanDriverSystem", false) ∷ ("RobotCanopenSystem", false) ∷ [];
  state = State.stopped;
  epoch = 0;
  reason = "stopped";
  samples = 0;
  sum_ns = 0;
  max_ns = 0;
  min_ns = 2 ^ 64 - 1;
  late = 0;
}
