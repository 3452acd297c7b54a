-- ===== src/Tests.antt =====
-- Concrete runs: the example inputs of the theorems.
mod Fleet
mod Permission
mod Drive
mod Start
mod Manager
mod Axis
mod Bridge
mod Freshness
mod Queue
mod Hybrid
mod Pdo
mod Sdo
