-- ===== src/Resp.antt =====
-- redis/ioredis_resp.go: the RESP2 codec, over bytes. The connection is the list of the bytes that it
-- will deliver, followed by its end.
pub mod Encode
pub mod Decode
pub mod Moves
pub mod Budgets
pub mod Frames
pub mod RoundTrip
mod Tests
