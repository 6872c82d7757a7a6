-- ===== src/Feature.antt =====
-- feature/strategy.go: how a rollout strategy chooses the value of a feature.
pub mod Hash
pub mod Matchers
pub mod Versions
pub mod Attributes
pub mod Strategies
pub mod Casts
pub mod Buckets
pub mod Matching
mod Tests
pub mod Repository
pub mod Merging
pub mod Latest
pub mod Backoff
pub mod Stream
pub mod Waits
pub mod Obsolete
mod StreamTests
