-- ===== src/Server.antt =====
-- outdated/mcp-server/src/server.rs: the MCP server, with its tools, prompts and resources.
pub mod Errors
pub mod Guidance
pub mod Prompt
pub mod Taskspaces
pub mod Tools
mod Examples
pub mod Crates
