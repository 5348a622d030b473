-- ===== src/LoadCache.antt =====
-- auth/server/src/provider/load_cache.rs: values that are slow to load over the network.
pub mod Cache
pub mod Laws
mod Tests
