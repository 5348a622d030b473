-- ===== src/Middleware.antt =====
-- auth/server/src/middleware.rs and auth/client/rs/src/signature.rs: the credentials of a request.
pub mod Signature
pub mod SignatureLaws
pub mod Extract
pub mod Request
pub mod Laws
pub mod Handled
pub mod Users
pub mod UserLaws
mod Tests
