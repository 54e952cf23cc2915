-- ===== src/Handlers.antt =====
-- internal/handlers: the endpoints of the queue, of the administration, and of the health checks.
pub mod Response
pub mod QueueEndpoints
pub mod Orders
pub mod Enqueue
pub mod Admin
pub mod Health
pub mod Access
pub mod Report
pub mod Examples
