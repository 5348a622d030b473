-- ===== src/Config.antt =====
-- crates/config: how the sources of a configuration are read and merged.
pub mod Json
pub mod Merge
pub mod MergeLaws
pub mod MergeRules
pub mod EnvFile
pub mod EnvFileLaws
mod Tests
mod EnvFileTests
