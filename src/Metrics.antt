-- ===== src/Metrics.antt =====
-- internal/metrics/prometheus.go.
pub mod Defs
pub mod Registered
mod Examples
