-- ===== src/Plugin.antt =====
-- orchestration/plugin: the order in which plugins are installed.
pub mod Glob
pub mod Ignore
pub mod Templates
pub mod Apply
pub mod Order
pub mod ApplyTests
pub mod Tests
