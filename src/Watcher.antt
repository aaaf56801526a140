-- ===== src/Watcher.antt =====
-- app/watcher: the reload of a configuration.
pub mod Changes
pub mod Reload
pub mod Components
pub mod Transactions
pub mod Atomicity
mod Examples
