-- ===== src/Canopen/Calls.antt =====
-- What changes the coordinator: the requests, the control loop's two periodic calls, the feedback
-- that the CAN thread delivers, and SetConfigured.
pub mod Transition
pub mod Recovery
pub mod Modes
pub mod Health
pub mod Intents
use new_robot.Base.{ℕ, List, [], ◌∷◌}
use new_robot.Canopen.Shared.{AxisFeedback, update_feedback}
use new_robot.Canopen.Coordinator.{MasterOps, Coordinator, set_configured}
use new_robot.Canopen.Requests.{
  request_init, request_enable, request_disable, request_release, request_halt, request_recover,
  request_shutdown, compute_intents, update_from_feedback,
}

pub data Request : Type 0 where
  configures inits enables disables releases halts shuts_down : Request
  recovers : List (List AxisFeedback) → List AxisFeedback → Request
  computes_intents updates : Request
  delivers : ℕ → AxisFeedback → Request

unfoldable pub handle : MasterOps → Coordinator → Request → Coordinator
handle ops c Request.configures = set_configured c
handle ops c Request.inits = (request_init ops c).0
handle ops c Request.enables = (request_enable ops c).0
handle ops c Request.disables = (request_disable ops c).0
handle ops c Request.releases = (request_release ops c).0
handle ops c Request.halts = (request_halt c).0
handle ops c Request.shuts_down = (request_shutdown ops c).0
handle ops c (Request.recovers early last) = (request_recover ops early last c).0
handle ops c Request.computes_intents = compute_intents c
handle ops c Request.updates = update_from_feedback c
handle ops c (Request.delivers i fb) = record c { shared = update_feedback i fb c.shared }

unfoldable pub handle_all : MasterOps → Coordinator → List Request → Coordinator
handle_all ops c [] = c
handle_all ops c (r ∷ rs) = handle_all ops (handle ops c r) rs
