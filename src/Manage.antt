-- ===== src/Manage.antt =====
-- auth/server/src/api/manage and auth/server/src/middleware.rs: the management API.
pub mod Guards
pub mod GuardLaws
pub mod Attach
pub mod AttachLaws
mod Tests
