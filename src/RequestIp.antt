-- ===== src/RequestIp.antt =====
-- crates/request_ip: whose address a request counts under, and lists of networks. Text is parsed
-- by `std::net` and by the `ipnet` crate, which is not part of the repository: the parsers are an
-- interface.
pub mod Cidr
pub mod Policy
pub mod Client
pub mod Spoofing
pub mod Whitelist
pub mod Trust
mod Tests
