-- ===== src/Safety.antt =====
-- robot_safety: who may move, and when.
pub mod Types
pub mod Scope
pub mod Evolution
pub mod Propagate
pub mod Setup
pub mod Freshness
pub mod Reports
pub mod Sessions
pub mod Session
pub mod Legacy
pub mod Calls
