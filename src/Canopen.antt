-- ===== src/Canopen.antt =====
-- The CANopen master's layers above the drives, reference/ros1/Eyou_Canopen_Master: the state that
-- the threads share, the operational coordinator and the start-up sequence.
pub mod Shared
pub mod Coordinator
pub mod Requests
pub mod Calls
pub mod Startup
pub mod Lifecycle
pub mod Protocol
pub mod Axis
pub mod SdoQueue
pub mod Pdo
pub mod Sdo
