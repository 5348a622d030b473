-- ===== src/Validations.antt =====
-- crates/validations/src/lib.rs and auth/server/src/validations.rs: checks of what users enter.
pub mod Validator
pub mod Accounts
pub mod AccountLaws
mod Tests
