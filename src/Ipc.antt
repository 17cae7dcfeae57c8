-- ===== src/Ipc.antt =====
-- outdated/mcp-server/src/ipc.rs and `DispatchHandle` of actor/dispatch.rs: what the MCP server says to
-- the editor.
pub mod Payloads
pub mod Project
pub mod Handle
pub mod Communicator
mod Examples
