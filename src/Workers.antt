-- ===== src/Workers.antt =====
-- internal/queue/worker.go: the pool of workers that process the queue.
pub mod Defs
pub mod Accounts
pub mod Leaving
pub mod Stopping
pub mod Alone
pub mod Examples
