-- ===== src/Fault.antt =====
-- internal/fault: the error injector, and the crash, hang and out-of-memory simulations.
pub mod Injector
pub mod Effective
pub mod Chaos
mod Examples
