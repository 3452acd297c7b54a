-- ===== src/Hybrid/Router.antt =====
-- The services on one joint, routed to its backend:
-- reference/ros1/Eyou_ROS1_Master/src/hybrid_mode_router.cpp with its header. The parameters of the
-- node are data of their own (an XmlRpc value by its type); std::tolower on each character and
-- std::stoul are arguments; the two services behind the router are functions on their state, or
-- none for a null pointer.
pub mod Targets
pub mod Services
use Prim.Native.String.{◌++◌ as append}
use new_robot.Base.{
  ℕ, ◌+◌, ◌-◌, ◌%◌, ◌^◌, String, Bool, true, false, ◌&&◌, not, is_empty, ltb, Option, none, some,
  List, [], ◌∷◌, if◌then◌else◌,
}
use new_robot.Base.Int.{ℤ, pos, negsuc}
use new_robot.Base.Names.{Map, lookup, bound, insert, keys}
use new_robot.Base.Text.{to_text}

pub record ModeMapping : Type 0 where
  pub has_canopen : Bool
  pub canopen_mode : ℤ
  pub has_can_driver : Bool
  pub can_driver_mode : ℤ

abbrev new_mode_mapping : ModeMapping
new_mode_mapping = record {
  has_canopen = false;
  canopen_mode = pos 0;
  has_can_driver = false;
  can_driver_mode = pos 0;
}

pub data TargetBackend : Type 0 where
  on_canopen on_can_driver : TargetBackend

pub record JointTarget : Type 0 where
  pub backend : TargetBackend
  pub axis_index : ℕ
  pub motor_id : ℕ

-- A member of a mode's struct.
pub data Field : Type 0 where
  an_int : ℤ → Field
  no_int : Field

-- A mode's value: its members canopen and can_driver.
pub data ModeValue : Type 0 where
  no_struct : ModeValue
  members : Option Field → Option Field → ModeValue

pub data ModeRoot : Type 0 where
  absent no_struct : ModeRoot
  modes : List (String × ModeValue) → ModeRoot

abbrev pub mode_text : String → String → String
mode_text name rest = append "mode '" (append name (append "'" rest))

abbrev not_int_text : String → String → String
not_int_text name field =
    mode_text name (append " backend mapping '" (append field "' must be int"))

-- The mapping of one mode, or what is wrong with it.
unfoldable pub parse_members : String → Option Field → Option Field → ModeMapping × Bool × String
parse_members name (some Field.no_int) driver =
    (new_mode_mapping, false, not_int_text name "canopen")
parse_members name (some (Field.an_int n)) (some Field.no_int) =
    (new_mode_mapping, false, not_int_text name "can_driver")
parse_members name (some (Field.an_int n)) (some (Field.an_int k)) = (
  record { has_canopen = true; canopen_mode = n; has_can_driver = true; can_driver_mode = k },
  true,
  "",
)
parse_members name (some (Field.an_int n)) none =
    (record new_mode_mapping { has_canopen = true; canopen_mode = n }, true, "")
parse_members name none (some Field.no_int) =
    (new_mode_mapping, false, not_int_text name "can_driver")
parse_members name none (some (Field.an_int k)) =
    (record new_mode_mapping { has_can_driver = true; can_driver_mode = k }, true, "")
parse_members name none none = (new_mode_mapping, false, mode_text name " has no backend mapping")

unfoldable pub parse_mode : String → ModeValue → ModeMapping × Bool × String
unfolding parse_members
parse_mode name ModeValue.no_struct =
    (new_mode_mapping, false, mode_text name " mapping is not a struct")
parse_mode name (ModeValue.members c d) = parse_members name c d

-- static_cast<uint16_t> of an int.
abbrev pub u16_of : ℤ → ℕ
u16_of (pos n) = n % 2 ^ 16
u16_of (negsuc n) = 2 ^ 16 - 1 - n % 2 ^ 16

module _ (lower : String → String) where
  -- The loop of LoadHybridModeMappings: the mappings so far, whether all went well, the error.
  unfoldable pub load_modes :
      List (String × ModeValue) → Map ModeMapping → Map ModeMapping × Bool × String
  unfolding parse_mode
  load_modes [] found = (found, true, "")
  load_modes ((key, value) ∷ rest) found =
      let (mapping, good, error) = parse_mode (lower key) value in
      let more = load_modes rest (insert (lower key) mapping found) in
      if not good then (found, false, error) else more

  -- `mappings->empty()`.
  abbrev none_found : Map ModeMapping × Bool × String → Map ModeMapping × Bool × String
  none_found ([], true, error) = ([], false, "joint_mode_mappings/modes is empty")
  none_found result = result

  unfoldable pub load_hybrid_mode_mappings :
      ModeRoot → Map ModeMapping → Map ModeMapping × Bool × String
  unfolding load_modes
  load_hybrid_mode_mappings ModeRoot.absent old =
      (old, false, "joint_mode_mappings/modes is missing")
  load_hybrid_mode_mappings ModeRoot.no_struct old =
      (old, false, "joint_mode_mappings/modes is not a struct")
  load_hybrid_mode_mappings (ModeRoot.modes entries) old = none_found (load_modes entries [])

pub data MotorId : Type 0 where
  number : ℤ → MotorId
  a_text : String → MotorId
  other : MotorId

-- An element of can_driver's joints.
pub data JointValue : Type 0 where
  no_struct incomplete : JointValue
  named : String → MotorId → JointValue

-- How the building ends; std::stoul may throw.
pub data Build : Type 0 where
  built : Map JointTarget → Build
  refused : String → Build
  thrown : Build

abbrev pub canopen_target : ℕ → JointTarget
canopen_target index = record {
  backend = TargetBackend.on_canopen;
  axis_index = index;
  motor_id = 0;
}

abbrev pub driver_target : ℕ → JointTarget
driver_target id = record { backend = TargetBackend.on_can_driver; axis_index = 0; motor_id = id }

abbrev pub duplicate : String → Build
duplicate name = Build.refused (append "duplicate joint name across mode targets: " name)

-- The first loop, from `index` on; the second goes on behind it.
unfoldable pub add_canopen : ℕ → List String → Map JointTarget → (Map JointTarget → Build) → Build
add_canopen index [] targets next = next targets
add_canopen index (name ∷ names) targets next =
    let rest = add_canopen (index + 1) names (insert name (canopen_target index) targets) next in
    if bound name targets then duplicate name else rest

module _ (stoul : String → Option ℕ) where
  -- Of a motor_id: none when it throws or has another type.
  unfoldable pub motor_id_of : MotorId → Option ℕ
  motor_id_of (MotorId.number n) = some (u16_of n)
  motor_id_of (MotorId.a_text s) = elim (stoul s) [ none ↦ none | some n ↦ some (n % 2 ^ 16) ]
  motor_id_of MotorId.other = none

  unfoldable pub bad_motor_id : String → MotorId → Build
  bad_motor_id name MotorId.other =
      Build.refused (append "Joint '" (append name "': invalid motor_id type."))
  bad_motor_id name _ = Build.thrown

  abbrev joint_text : ℕ → String → String
  joint_text index rest = append "can_driver joints[" (append (to_text index) rest)

  unfoldable pub add_driver : ℕ → List JointValue → Map JointTarget → Build
  add_driver index [] targets = Build.built targets
  add_driver index (JointValue.no_struct ∷ joints) targets =
      Build.refused (joint_text index "] is not a struct")
  add_driver index (JointValue.incomplete ∷ joints) targets =
      Build.refused (joint_text index "] missing name/motor_id")
  add_driver index (JointValue.named name id ∷ joints) targets = elim (motor_id_of id) [
    | none ↦ bad_motor_id name id
    | some n ↦
        if bound name targets
        then duplicate name
        else add_driver (index + 1) joints (insert name (driver_target n) targets)
  ]

  -- BuildHybridModeJointTargets; none stands for a joint list that is no array.
  unfoldable pub build_joint_targets : List String → Option (List JointValue) → Build
  unfolding add_canopen add_driver
  build_joint_targets names none = Build.refused "can_driver joints config is not an array"
  build_joint_targets names (some joints) = add_canopen 0 names [] (add_driver 0 joints)
