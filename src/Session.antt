-- ===== src/Session.antt =====
-- auth/server/src/session.rs: the steps of a login as they are kept on the session. The session
-- store (`tower_sessions`) is an interface, `Store`; that it fails to load or save is left out.
pub mod Store
pub mod Steps
pub mod Once
pub mod Totp
pub mod Memory
mod Tests
