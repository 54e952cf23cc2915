-- ===== src/Program.antt =====
-- cmd/hotpod/main.go, and the `Register` methods of internal/handlers.
pub mod Routes
pub mod Served
pub mod Main
pub mod Examples
pub mod Ending
