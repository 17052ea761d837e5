-- ===== src/Queue.antt =====
-- internal/queue/queue.go: a priority queue of tasks with dependencies. Each method runs under the
-- queue's mutex, so a concurrent run is a sequence of these calls.
pub mod Types
pub mod Done
pub mod Ready
pub mod Heap
pub mod Operations
