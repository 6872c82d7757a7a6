-- ===== src/Logging.antt =====
-- logging/ratelimit.go: the rate limit on log records.
pub mod RateLimit
pub mod Rates
mod Tests
