-- ===== src/Hybrid/Router/Services.antt =====
-- The handlers of the router: HandleSetJointMode, HandleSetJointZero and HandleApplyJointLimits of
-- reference/ros1/Eyou_ROS1_Master/src/hybrid_mode_router.cpp.
use Prim.Native.String.{◌++◌ as append}
use new_robot.Base.{
  ℕ, ◌-◌, ◌%◌, ◌^◌, String, Bool, true, false, not, is_empty, ltb, Option, none, some, List, [],
  ◌∷◌, if◌then◌else◌,
}
use new_robot.Base.Int.{ℤ, pos, negsuc}
use new_robot.Base.Names.{Map, lookup, keys}
use new_robot.Hybrid.Router.{ModeMapping, TargetBackend, JointTarget, mode_text}

-- static_cast<int8_t> of an int.
abbrev signed8 : ℕ → ℤ
signed8 n = if ltb n (2 ^ 7) then pos n else negsuc (2 ^ 8 - 1 - n)

abbrev pub i8_of : ℤ → ℤ
i8_of (pos n) = signed8 (n % 2 ^ 8)
i8_of (negsuc n) = signed8 (2 ^ 8 - 1 - n % 2 ^ 8)

-- What a service answers; `value` is what it gives back besides: the mapped mode, the positions.
pub record RouterReply {ℓ} (V : Type ℓ) : Type ℓ where
  pub ok : Bool
  pub backend : String
  pub value : V
  pub message : String

-- A call of a backend's service on an axis or a motor: its state, result, value and detail.
abbrev pub AxisService {ℓ κ} : Type ℓ → Type κ → Type (ℓ ⊔ κ)
AxisService W V = Option (ℕ → W → W × Bool × V × String)

module _ {ℓ κ} {W : Type ℓ} {V : Type κ} where
  -- The part of a handler behind the lookups: the call, and the texts for it.
  unfoldable pub call_service :
      AxisService W V → String → String → String → V → ℕ → W → W × RouterReply V
  call_service none name done failed v n w =
      (w, record { ok = false; backend = ""; value = v; message = failed })
  call_service (some f) name done failed v n w =
      let (w', worked, v', detail) = f n w in
      (
        w',
        if not worked
            then record {
              ok = false;
              backend = "";
              value = v';
              message = if is_empty detail then failed else detail;
            }
            else record {
              ok = true;
              backend = name;
              value = v';
              message = if is_empty detail then done else detail;
            },
      )

  -- HandleSetJointZero and HandleApplyJointLimits, whose other arguments are in the services.
  unfoldable pub handle_joint :
      AxisService W V
      → AxisService W V
      → String
      → String
      → V
      → Map JointTarget
      → String
      → W
      → W × RouterReply V
  unfolding call_service
  handle_joint canopen driver done action v targets joint w = elim (lookup joint targets) [
    | none ↦ (
      w,
      record { ok = false; backend = ""; value = v; message = append "unknown joint: " joint },
    )
    | some t ↦ elim t.backend [
      | TargetBackend.on_canopen ↦
          call_service canopen "canopen" done (append "canopen " (append action " failed")) v
            t.axis_index w
      | TargetBackend.on_can_driver ↦
          call_service driver "can_driver" done (append "can_driver " (append action " failed")) v
            t.motor_id w
    ]
  ]

  unfoldable pub handle_set_joint_zero :
      AxisService W V → AxisService W V → V → Map JointTarget → String → W → W × RouterReply V
  unfolding handle_joint
  handle_set_joint_zero canopen driver = handle_joint canopen driver "zero set" "set zero"

  unfoldable pub handle_apply_joint_limits :
      AxisService W V → AxisService W V → V → Map JointTarget → String → W → W × RouterReply V
  unfolding handle_joint
  handle_apply_joint_limits canopen driver =
      handle_joint canopen driver "limits applied" "apply limits"

-- `for (const auto& entry : mappings_)`.
unfoldable pub listed : String → List String → String
listed text [] = text
listed text (n ∷ ns) = listed (append text (append " " n)) ns

module _ {ℓ} {W : Type ℓ} (lower : String → String) where
  abbrev unmapped : String → String → W → W × RouterReply ℤ
  unmapped mode backend w = (
    w,
    record {
      ok = false;
      backend = "";
      value = pos 0;
      message = mode_text mode (append " is not mapped for " (append backend " backend"));
    },
  )

  -- A setter of modes, as the service that it is for one mode; the answer shows the mapped mode.
  abbrev mode_service : Option (ℕ → ℤ → W → W × Bool × String) → ℤ → ℤ → AxisService W ℤ
  mode_service none sent shown = none
  mode_service (some f) sent shown = some λ n w.
      let (w', worked, detail) = f n sent w in (w', worked, if worked then shown else pos 0, detail)

  unfoldable pub set_mapped_mode :
      Option (ℕ → ℤ → W → W × Bool × String)
      → Option (ℕ → ℤ → W → W × Bool × String)
      → String
      → ModeMapping
      → JointTarget
      → W
      → W × RouterReply ℤ
  unfolding call_service
  set_mapped_mode canopen driver mode m t w = elim t.backend [
    | TargetBackend.on_canopen ↦
        if not m.has_canopen
        then unmapped mode "canopen" w
        else call_service (mode_service canopen (i8_of m.canopen_mode) m.canopen_mode) "canopen"
            "mode set" "canopen set mode failed" (pos 0) t.axis_index w
    | TargetBackend.on_can_driver ↦
        if not m.has_can_driver
        then unmapped mode "can_driver" w
        else call_service (mode_service driver m.can_driver_mode m.can_driver_mode) "can_driver"
            "mode set" "can_driver set mode failed" (pos 0) t.motor_id w
  ]

  unfoldable pub handle_set_joint_mode :
      Option (ℕ → ℤ → W → W × Bool × String)
      → Option (ℕ → ℤ → W → W × Bool × String)
      → Map JointTarget
      → Map ModeMapping
      → String
      → String
      → W
      → W × RouterReply ℤ
  unfolding listed set_mapped_mode
  handle_set_joint_mode canopen driver targets mappings joint mode w = elim (lookup joint targets) [
    | none ↦ (
      w,
      record { ok = false; backend = ""; value = pos 0; message = append "unknown joint: " joint },
    )
    | some t ↦ elim (lookup (lower mode) mappings) [
      | none ↦ (
        w,
        record {
          ok = false;
          backend = "";
          value = pos 0;
          message = listed (append "unknown mode: " (append mode "; available:")) (keys mappings);
        },
      )
      | some m ↦ set_mapped_mode canopen driver (lower mode) m t w
    ]
  ]
