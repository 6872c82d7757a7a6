-- ===== src/Config.antt =====
-- config/schema.go: the schemas that check and resolve the configuration.
pub mod Values
pub mod Constraints
pub mod Evaluate
pub mod Schema
pub mod Fresh
pub mod WellFormed
pub mod Resolve
pub mod Apply
pub mod Install
pub mod Satisfied
pub mod Atomic
pub mod Again
pub mod Durations
mod Tests
