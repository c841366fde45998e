-- ===== src/Fleet.antt =====
-- orchestration/fleet: Backoff is the retry delay, Services what a worker asks of the rest of the
-- program, Worker the controller of one server, Manager the dispatcher.
pub mod Backoff
pub mod Services
pub mod Worker
pub mod Tests
pub mod Manager
pub mod Routing
