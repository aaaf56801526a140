-- ===== src/Engine.antt =====
-- app/engine: limits, context bounds, the run state machine and the MCP tools.
pub mod Limits
pub mod Context
pub mod RunState
pub mod Events
pub mod Pricing
pub mod Mcp
pub mod Rag
mod Examples
