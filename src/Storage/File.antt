-- ===== src/Storage/File.antt =====
-- app/storage/file_backend.py: the file backend.
pub mod Names
pub mod State
pub mod Sessions
pub mod Runs
pub mod Scans
pub mod Idempotency
pub mod Approvals
pub mod Fences
pub mod Sweep
pub mod Paths
pub mod Requests
pub mod Refinement
mod Examples
