-- ===== src/Endpoints.antt =====
-- The endpoints that make load: internal/handlers/cpu.go, memory.go, latency.go, io.go and work.go, and
-- those of internal/handlers/fault.go.
pub mod Defs
pub mod Cpu
pub mod Memory
pub mod Fill
pub mod Latency
pub mod Io
pub mod Work
pub mod Tracked
pub mod Faults
pub mod Checked
pub mod Ranged
pub mod Varied
pub mod NotNumber
pub mod SizeText
pub mod SizePieces
pub mod SizeRead
pub mod Info
pub mod Accepts
pub mod Hanging
pub mod Chaos
pub mod Examples
