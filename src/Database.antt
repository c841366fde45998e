-- ===== src/Database.antt =====
-- orchestration/database: the rows, and the resolution of what a server runs with.
pub mod Rows
pub mod Resolve
pub mod Sets
pub mod Tables
pub mod Crud
pub mod Tests
pub mod Env
pub mod Catalog
pub mod Users
pub mod Scopes
