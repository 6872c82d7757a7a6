-- ===== src/Instrumentation.antt =====
-- instrumentation/registry.go: a registry of compiled instrumentations, and the manager that starts
-- and stops the selected ones.
pub mod Registry
pub mod Names
pub mod Lifecycle
pub mod Rollback
mod Tests
