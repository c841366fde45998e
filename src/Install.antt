-- ===== src/Install.antt =====
-- orchestration/internal/install: the download cache and what installs put on disk.
pub mod Cache
pub mod Tests
pub mod Paths
pub mod Disk
pub mod Trees
pub mod Inside
pub mod Unpacking
