-- ===== src/Setup.antt =====
-- src/setup: the installer. What it prints is left out.
pub mod System
pub mod Acp
pub mod Vscode
pub mod Zed
pub mod Main
pub mod DryRun
mod Examples
