-- ===== src/Engine/Mcp.antt =====
-- app/engine/mcp: tool names, result bounds and the server manager.
pub mod Filtering
pub mod Transport
pub mod Manager
mod Examples
