-- ===== src/Acp.antt =====
-- src/symposium-acp-proxy and src/symposium-acp-agent: the chain of proxies between an editor and
-- an agent.
pub mod Proxy
pub mod Cli
mod Examples
