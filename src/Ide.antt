-- ===== src/Ide.antt =====
-- outdated/mcp-server/src/ide.rs: the functions that the dialect offers on code.
pub mod Ranges
pub mod Symbols
pub mod Lines
pub mod Search
pub mod Links
pub mod Comments
mod Examples
