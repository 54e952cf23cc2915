-- ===== src/Load.antt =====
-- internal/load/tracker.go: how many load operations of each type run at once.
pub mod Defs
pub mod Limits
pub mod Race
mod Examples
