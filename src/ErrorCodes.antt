-- ===== src/ErrorCodes.antt =====
-- errors/errors.go and errors/codes.go: the registry of error codes and messages.
pub mod Codes
pub mod Messages
mod Tests
