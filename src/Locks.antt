-- ===== src/Locks.antt =====
-- auth/server/src/provider/workload.rs: the locks of workload users and of trusted issuers.
pub mod World
pub mod Exclusive
mod Tests
