-- ===== src/Sidecar.antt =====
-- internal/sidecar/runner.go.
pub mod Defs
pub mod Burn
pub mod Stops
pub mod Turns
pub mod Examples
