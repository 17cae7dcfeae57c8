-- ===== src/Walkthrough.antt =====
-- outdated/mcp-server/src/walkthrough_parser.rs: markdown whose code blocks stand for elements of a
-- walkthrough.
pub mod Yaml
pub mod Elements
pub mod Html
pub mod Blocks
mod Examples
