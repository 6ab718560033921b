-- ===== src/Handler.antt =====
-- crates/redis-web-runtime/src/handler.rs: an HTTP request becomes a command, the command is checked
-- and executed, and the reply becomes a response.
pub mod Convert
pub mod Process
pub mod Safety
pub mod Caching
pub mod Headers
pub mod Panics
pub mod Refusals
mod Tests
