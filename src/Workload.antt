-- ===== src/Workload.antt =====
-- auth/server/src/provider/workload.rs: the access rules that the claims of a workload's token meet.
pub mod Glob
pub mod GlobLaws
pub mod Claims
pub mod Lookup
pub mod Rules
pub mod Tests
