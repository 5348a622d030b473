-- ===== src/RateLimit.antt =====
-- crates/rate_limit/src/lib.rs. Time is an argument of each operation, where the source reads the
-- clock under the lock.
pub mod Attempts
pub mod Strict
pub mod Budget
pub mod Retry
pub mod Key
pub mod Entries
pub mod Cleanup
pub mod Room
pub mod Wrapper
pub mod Single
pub mod StrictSingle
pub mod Choice
pub mod Size
mod Tests
