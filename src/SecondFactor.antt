-- ===== src/SecondFactor.antt =====
-- auth/server/src/api/login/totp.rs: the second factor codes of every user, and the bound on how
-- many of them can fail. Time is an argument; each operation runs under the one lock.
pub mod Attempts
pub mod View
pub mod BeginCalls
pub mod EndCalls
pub mod World
pub mod Invariant
pub mod Begins
pub mod Ends
pub mod Bound
mod Tests
