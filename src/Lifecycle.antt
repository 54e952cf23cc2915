-- ===== src/Lifecycle.antt =====
-- internal/server/lifecycle.go: startup, readiness, the count of requests in flight, and shutdown.
pub mod Defs
pub mod History
pub mod Drain
mod Examples
