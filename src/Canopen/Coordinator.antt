-- ===== src/Canopen/Coordinator.antt =====
-- The operational coordinator's state, its hooks into the master, and its transitions:
-- include/canopen_hw/operational_coordinator.hpp and src/operational_coordinator.cpp. The master's
-- hooks are a record of functions, as in the source; each may change the state that the CAN thread
-- shares with it.
use Prim.Native.String.{◌++◌ as append}
use new_robot.Base.{
  ℕ, zero, suc, ◌+◌, String, Bool, true, false, Option, none, some, List, [], ◌∷◌, is_empty, any_of,
  if◌then◌else◌,
}
use new_robot.Base.Text.{to_text}
use new_robot.Canopen.Shared.{AxisFeedback, SharedState}

pub data SystemOpMode : Type 0 where
  inactive configured standby armed running faulted recovering shutting_down : SystemOpMode

abbrev pub system_op_mode_name : SystemOpMode → String
system_op_mode_name SystemOpMode.inactive = "Inactive"
system_op_mode_name SystemOpMode.configured = "Configured"
system_op_mode_name SystemOpMode.standby = "Standby"
system_op_mode_name SystemOpMode.armed = "Armed"
system_op_mode_name SystemOpMode.running = "Running"
system_op_mode_name SystemOpMode.faulted = "Faulted"
system_op_mode_name SystemOpMode.recovering = "Recovering"
system_op_mode_name SystemOpMode.shutting_down = "ShuttingDown"

abbrev pub mode_eq : SystemOpMode → SystemOpMode → Bool
mode_eq SystemOpMode.inactive SystemOpMode.inactive = true
mode_eq SystemOpMode.configured SystemOpMode.configured = true
mode_eq SystemOpMode.standby SystemOpMode.standby = true
mode_eq SystemOpMode.armed SystemOpMode.armed = true
mode_eq SystemOpMode.running SystemOpMode.running = true
mode_eq SystemOpMode.faulted SystemOpMode.faulted = true
mode_eq SystemOpMode.recovering SystemOpMode.recovering = true
mode_eq SystemOpMode.shutting_down SystemOpMode.shutting_down = true
mode_eq _ _ = false

-- An answer of the master: the shared state that it leaves, its result, and its detail.
pub record Answer : Type 0 where
  pub shared : SharedState
  pub ok : Bool
  pub detail : String

-- MasterOps; a std::function that may be empty is an Option.
pub record MasterOps : Type 0 where
  pub start : Option (SharedState → Answer)
  pub running : Option (SharedState → Bool)
  pub reset_all_faults : Option (SharedState → Answer)
  pub graceful_shutdown : Option (SharedState → Answer)
  pub stop : Option (SharedState → SharedState)

pub record Coordinator : Type 0 where
  pub mode : SystemOpMode
  pub shared : SharedState
  pub axis_count : ℕ

-- OperationalCoordinator::Result.
pub record Reply : Type 0 where
  pub ok : Bool
  pub message : String

-- `if (detail && detail->empty()) *detail = text`.
abbrev pub or_text : String → String → String
or_text detail text = if is_empty detail then text else detail

abbrev pub set_configured : Coordinator → Coordinator
set_configured c = record c { mode = SystemOpMode.configured }

unfoldable pub master_running : MasterOps → SharedState → Bool
master_running ops s = elim ops.running [ none ↦ false | some f ↦ f s ]

-- MasterStart leaves "master start failed" as its detail.
unfoldable pub master_start : MasterOps → SharedState → SharedState × Bool
master_start ops s = elim ops.start [ none ↦ (s, false) | some f ↦ let a = f s in (a.shared, a.ok) ]

abbrev pub unavailable_path : SharedState → String → Answer
unavailable_path s text = record { shared = s; ok = false; detail = text }

unfoldable pub master_reset_all_faults : MasterOps → SharedState → Answer
master_reset_all_faults ops s = elim ops.reset_all_faults [
  | none ↦ unavailable_path s "fault reset path not available"
  | some f ↦ f s
]

unfoldable pub master_graceful_shutdown : MasterOps → SharedState → Answer
master_graceful_shutdown ops s = elim ops.graceful_shutdown [
  | none ↦ unavailable_path s "graceful shutdown path not available"
  | some f ↦ f s
]

unfoldable pub master_stop : MasterOps → SharedState → SharedState
master_stop ops s = elim ops.stop [ none ↦ s | some f ↦ f s ]

abbrev pub axis_text : String → ℕ → String → String
axis_text before i after = append before (append (to_text i) after)

-- The loop of CheckHealthyForMotion over the first min(axis_count, size) axes: what is wrong.
unfoldable pub first_complaint : ℕ → ℕ → List AxisFeedback → Option String
first_complaint zero i fbs = none
first_complaint (suc n) i [] = none
first_complaint (suc n) i (fb ∷ fbs) =
    let rest = first_complaint n (i + 1) fbs in
    if fb.is_fault
    then some (axis_text "axis " i " fault active")
    else if fb.heartbeat_lost
    then some (axis_text "axis " i " heartbeat lost")
    else rest

unfoldable pub check_healthy_for_motion : Coordinator → Bool × String
unfolding first_complaint
check_healthy_for_motion c =
    if c.shared.global_fault
    then (false, "global fault latch active")
    else elim (first_complaint c.axis_count 0 c.shared.feedback) [
      | none ↦ (true, "")
      | some text ↦ (false, text)
    ]

-- The state, the result and the detail of an action.
abbrev pub Action : Type 0
Action = Coordinator → Coordinator × Bool × String

-- What follows the action of a transition.
unfoldable pub concluded : SystemOpMode → Coordinator × Bool × String → Coordinator × Reply
concluded to (c, true, detail) = (
  record c { mode = to },
  record { ok = true; message = or_text detail (append "-> " (system_op_mode_name to)) },
)
concluded to (c, false, detail) =
    (c, record { ok = false; message = or_text detail "action failed" })

unfoldable pub do_transition :
    List SystemOpMode → SystemOpMode → Action → Coordinator → Coordinator × Reply
unfolding concluded
do_transition allowed to action c =
    if any_of (λ from. mode_eq from c.mode) allowed
    then concluded to (action c)
    else if mode_eq c.mode to
    then (c, record { ok = true; message = append "already " (system_op_mode_name to) })
    else (
      c,
      record {
        ok = false;
        message =
            append "cannot transition from "
              (append (system_op_mode_name c.mode) (append " to " (system_op_mode_name to)));
      },
    )
