-- ===== src/Login.antt =====
-- auth/server/src/api/login: the handlers that complete a login.
pub mod Totp
pub mod Replay
pub mod Refusals
mod Tests
mod LocalTests
pub mod Local
