-- ===== src/Cache.antt =====
-- crates/cache/src/lib.rs.
pub mod Timeout
pub mod TimeoutLaws
mod Tests
