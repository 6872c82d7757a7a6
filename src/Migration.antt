-- ===== src/Migration.antt =====
-- migration/: the runner of compiled, checkpointed database migrations.
pub mod Errors
pub mod Ids
pub mod States
pub mod Registry
pub mod Effects
pub mod Checks
pub mod Runner
pub mod Locks
mod Tests
