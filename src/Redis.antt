-- ===== src/Redis.antt =====
-- crates/redis-web-runtime/src/redis.rs: how a connection is set up, and the pools. The client library's
-- parts that the code sets are records; what the library or the operating system does is a parameter.
pub mod Connection
pub mod Pools
pub mod Sharing
pub mod Keeping
pub mod Guards
pub mod Progress
pub mod Clients
pub mod Executor
mod Tests
