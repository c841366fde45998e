-- ===== src/Api.antt =====
-- orchestration/api: the HTTP control plane, over the store.
pub mod Http
pub mod Requests
pub mod Servers
pub mod Clusters
pub mod Catalog
pub mod Accounts
pub mod Reachable
pub mod Variables
pub mod Tests
pub mod Events
pub mod AccountTests
