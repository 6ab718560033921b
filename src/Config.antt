-- ===== src/Config.antt =====
-- crates/redis-web-core/src/config.rs.
pub mod Env
pub mod Expansion
pub mod Settings
pub mod Documents
pub mod Aliases
pub mod Decorated
mod Tests
