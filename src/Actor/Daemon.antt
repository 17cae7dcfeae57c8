-- ===== src/Actor/Daemon.antt =====
-- outdated/mcp-server/src/daemon.rs: the message bus. `Client` is the task of a connection, `Bus` is
-- the loop that accepts connections and ends when nobody is connected.
pub mod Bus
pub mod Client
mod Examples
