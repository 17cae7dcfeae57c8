-- ===== src/Actor.antt =====
-- The actors of the MCP server and its daemon: outdated/mcp-server/src/actor.
pub mod Repeater
pub mod Messages
pub mod Dispatch
pub mod Reference
pub mod Daemon
mod Examples
