-- ===== src/Config.antt =====
-- internal/config/config.go: the settings, the parsers for their notations, and their validation.
pub mod Result
pub mod Parse
pub mod Size
pub mod Cpu
pub mod DirName
pub mod Defs
pub mod Validate
mod Examples
