-- ===== src/Cia402.antt =====
-- The CiA 402 drive state machine of the ROS1 CANopen master
-- (reference/ros1/Eyou_Canopen_Master: cia402_defs.hpp, cia402_state_machine.hpp and
-- cia402_state_machine.cpp).
pub mod Types
pub mod Machine
pub mod Gate
pub mod Limits
