-- ===== src/Ferris.antt =====
-- src/symposium-ferris: the Rust development tools, their version resolution and their caches.
pub mod Error
pub mod Version
pub mod Cache
pub mod Fetch
pub mod Tools
pub mod Researcher
mod Examples
