-- ===== src/Config.antt =====
-- app/config: the resolution of a configuration from its tiers.
pub mod Documents
pub mod Tiers
pub mod Scalars
pub mod Cli
pub mod Environment
pub mod Finalize
pub mod Merging
pub mod Aliases
mod Examples
