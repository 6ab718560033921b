-- ===== src/Resp.antt =====
-- crates/redis-web-core/src/resp.rs: replies to RESP bytes, and commands from them.
pub mod Reply
pub mod Command
pub mod Framing
pub mod RoundTrip
pub mod Progress
pub mod Streaming
pub mod Partial
mod Tests
