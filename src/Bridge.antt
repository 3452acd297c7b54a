-- ===== src/Bridge.antt =====
-- The TCP bridge to the remote side, reference/ros1/tcp_bridge.
pub mod Server
