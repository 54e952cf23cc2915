-- ===== src/Queue.antt =====
-- internal/queue/queue.go: the bounded three-level priority queue and its statistics. The proofs
-- about it are in the children.
pub mod Defs
pub mod Spec
pub mod Insert
pub mod Refine
pub mod Order
pub mod Totals
pub mod Oldest
mod Examples
