-- ===== src/Hybrid/AutoStart.antt =====
-- The start of both backends: RunInitSequence and RunConfiguredInitSequence of
-- reference/ros1/Eyou_ROS1_Master/src/hybrid_service_gateway.cpp and RunHybridAutoStartup of
-- hybrid_auto_startup.cpp. The parameters of the node are arguments; a can_device is a text.
use Prim.Native.String.{◌++◌ as append}
use new_robot.Base.{
  String, Bool, true, false, ◌&&◌, ◌||◌, not, Option, none, some, List, [], ◌∷◌, is_empty,
  if◌then◌else◌,
}
use new_robot.Base.Names.{NameSet, add_name}
use new_robot.Canopen.Coordinator.{SystemOpMode}
use new_robot.Hybrid.{
  Backend, HybridReply, hybrid_mode, hybrid_init, hybrid_enable, hybrid_release, hybrid_shutdown,
}

-- The parameter `joints`: an entry of the array that is no struct or has no can_device is none.
pub data JointList : Type 0 where
  absent no_array : JointList
  entries : List (Option String) → JointList

unfoldable pub devices_of : List (Option String) → NameSet → NameSet
devices_of [] found = found
devices_of (none ∷ es) found = devices_of es found
devices_of (some d ∷ es) found = devices_of es (if is_empty d then found else add_name d found)

-- `for (const auto& candidate : devices)`.
unfoldable pub joined : String → NameSet → String
joined detail [] = detail
joined detail (d ∷ ds) =
    joined (append (if is_empty detail then detail else append detail ", ") d) ds

-- From the set of devices on: the device, or what is wrong.
unfoldable pub single_device : NameSet → Bool × String
unfolding joined
single_device [] = (false, "can_driver joints config does not define any can_device")
single_device (d ∷ []) = (true, d)
single_device (d ∷ e ∷ ds) = (
  false,
  append "hybrid init requires a single can_driver device; configured devices: "
      (joined "" (d ∷ e ∷ ds)),
)

-- ResolveCanDriverInitRequest, without init_loopback.
unfoldable pub resolve_device : JointList → Bool × String
unfolding devices_of single_device
resolve_device JointList.absent = (false, "can_driver joints config is missing")
resolve_device JointList.no_array = (false, "can_driver joints config is not an array")
resolve_device (JointList.entries es) = single_device (devices_of es [])

pub record StartOptions : Type 0 where
  pub auto_init : Bool
  pub auto_enable : Bool
  pub auto_release : Bool

abbrev pub text_or : String → String → String
text_or text other = if is_empty text then other else text

module _ {ℓ κ} {S : Type ℓ} {T : Type κ} (can : Backend S) (canopen : Backend T) where
  -- The post-init hook may change both backends; an empty std::function is none.
  abbrev pub Hook : Type (ℓ ⊔ κ)
  Hook = Option (S × T → (S × T) × Bool × String)

  -- After a hook that failed.
  unfoldable pub hook_failed : String → S × T → (S × T) × HybridReply
  hook_failed detail x =
      let (y, r) = hybrid_shutdown can canopen false x in
      let text = text_or detail "post-init hook failed" in
      (
        y,
        record {
          ok = false;
          message =
              if not r.ok
              then append text (append "; rollback shutdown failed: " r.message)
              else text;
          already = false;
        },
      )

  abbrev initialized : HybridReply
  initialized = record { ok = true; message = "initialized (armed)"; already = false }

  unfoldable pub run_hook : Hook → S × T → (S × T) × HybridReply
  run_hook none x = (x, initialized)
  run_hook (some hook) x =
      let (y, worked, detail) = hook x in
      if not worked then hook_failed detail y else (y, initialized)

  unfoldable pub run_init_sequence : Hook → String → Bool → S × T → (S × T) × HybridReply
  run_init_sequence hook device loopback x =
      let (y, r) = hybrid_init can canopen device loopback x in
      if not r.ok
      then (y, record r { message = text_or r.message "init failed"; already = false })
      else if r.already
      then (y, record r { message = "already initialized" })
      else run_hook hook y

  unfoldable pub run_configured_init_sequence :
      Hook → JointList → Bool → S × T → (S × T) × HybridReply
  run_configured_init_sequence hook joints loopback x =
      let (found, text) = resolve_device joints in
      if not found
      then (x, record { ok = false; message = text; already = false })
      else run_init_sequence hook text loopback x

  -- The answer, with its error text.
  abbrev Verdict : Type (ℓ ⊔ κ)
  Verdict = (S × T) × Bool × String

  abbrev passed_on : (S × T) × HybridReply → Verdict
  passed_on (x, r) = (x, r.ok, if r.ok then "" else r.message)

  unfoldable pub ensure_armed_in : SystemOpMode → S × T → Verdict
  ensure_armed_in SystemOpMode.standby x = passed_on (hybrid_enable can canopen x)
  ensure_armed_in SystemOpMode.armed x = (x, true, "")
  ensure_armed_in SystemOpMode.running x = (x, true, "")
  ensure_armed_in _ x =
      (x, false, "auto startup expected hybrid lifecycle in Standby/Armed/Running after init")

  unfoldable pub ensure_hybrid_armed : S × T → Verdict
  ensure_hybrid_armed x = ensure_armed_in (hybrid_mode can canopen x) x

  unfoldable pub ensure_running_in : SystemOpMode → S × T → Verdict
  ensure_running_in SystemOpMode.running x = (x, true, "")
  ensure_running_in SystemOpMode.armed x = passed_on (hybrid_release can canopen x)
  ensure_running_in _ x = (x, false, "auto startup could not drive hybrid lifecycle to running")

  unfoldable pub ensure_hybrid_running : S × T → Verdict
  ensure_hybrid_running x =
      let (y, armed, error) = ensure_hybrid_armed x in
      if not armed then (y, false, error) else ensure_running_in (hybrid_mode can canopen y) y

  -- From a successful init on.
  unfoldable pub start_motion : StartOptions → S × T → Verdict
  start_motion options x =
      let (y, armed, error) =
        if options.auto_enable then ensure_hybrid_armed x else (x, true, "") in
      if not armed
      then (y, false, error)
      else if options.auto_release
      then ensure_hybrid_running y
      else (y, true, "")

  unfoldable pub run_hybrid_auto_startup : StartOptions → Hook → JointList → Bool → S × T → Verdict
  run_hybrid_auto_startup options hook joints loopback x =
      if (options.auto_enable || options.auto_release) && not options.auto_init
      then (x, false, "auto_enable/auto_release require auto_init=true")
      else if options.auto_release && not options.auto_enable
      then (x, false, "auto_release requires auto_enable=true")
      else if not options.auto_init
      then (x, true, "")
      else let (y, r) = run_configured_init_sequence hook joints loopback x in
        if not r.ok then (y, false, r.message) else start_motion options y
