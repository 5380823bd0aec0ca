-- ===== src/System.antt =====
-- src/server.rs: the workers and the event loop together.
pub mod Maps
pub mod Shape
pub mod Queues
pub mod Commands
pub mod Events
pub mod Starting
pub mod Locking
pub mod Steps
pub mod Agreement
pub mod Safety
