-- ===== src/Git.antt =====
-- outdated/mcp-server/src/git: what changed in a repository, and the comments in it.
pub mod Diff
pub mod Comments
mod Examples
