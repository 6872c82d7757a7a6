-- ===== src/Sse.antt =====
-- feature/sse.go: the accumulator of one server-sent event, and the splitter of the stream into lines.
pub mod Event
pub mod Bounds
pub mod Split
pub mod Prefixes
mod Tests
