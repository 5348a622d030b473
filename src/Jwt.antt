-- ===== src/Jwt.antt =====
-- auth/server/src/provider/jwt.rs: the app's own tokens.
pub mod Provider
pub mod Laws
pub mod Tests
