-- ===== src/Eg.antt =====
-- outdated/mcp-server/src/eg: the first version of the crate tools, with a search in the sources.
pub mod Search
pub mod Crate
