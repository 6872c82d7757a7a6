-- ===== src/Health.antt =====
-- health/health.go: the checks, and the loops that write the liveness file.
pub mod Checks
pub mod Periodic
pub mod Loops
pub mod Barrier
pub mod Single
mod Tests
