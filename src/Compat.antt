-- ===== src/Compat.antt =====
-- crates/redis-web-runtime/src/compat.rs: the sessions under `/__compat` that hiredis clients use.
pub mod Forwarding
pub mod Control
pub mod Session
pub mod Manager
pub mod Table
pub mod Limit
pub mod Sweeping
pub mod Subscriptions
pub mod Handlers
pub mod Sockets
pub mod Creation
pub mod Reuse
pub mod Prefix
mod Tests
pub mod Stream
pub mod Pipelining
pub mod Bodies
pub mod Chunks
