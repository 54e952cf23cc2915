-- ===== src/Files.antt =====
-- internal/handlers/io.go: the loops that write and read a temporary file, and `performIO`.
pub mod Defs
pub mod Bounds
pub mod Quiet
pub mod Examples
