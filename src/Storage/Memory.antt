-- ===== src/Storage/Memory.antt =====
-- app/storage/memory.py: the in-memory backend. Each method is one atomic step, since its body
-- awaits nothing while it holds the lock.
pub mod State
pub mod Sessions
pub mod Runs
pub mod Idempotency
pub mod Fences
pub mod Approvals
pub mod Sweep
pub mod Commands
pub mod Isolation
pub mod Retention
pub mod Fixtures
mod Examples
pub mod Admission
pub mod Eviction
pub mod Reachable
pub mod WellFormed
pub mod Bounds
pub mod Capacity
pub mod Deletion
pub mod LostUpdate
pub mod Revisions
pub mod Decisions
pub mod Exclusion
pub mod Fencing
