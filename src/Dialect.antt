-- ===== src/Dialect.antt =====
-- outdated/mcp-server/src/dialect: the language in which an agent calls IDE functions.
pub mod Outcome
pub mod Syntax
pub mod Lexer
pub mod Parser
pub mod Grammar
pub mod Interpreter
mod Examples
