-- ===== src/Mcpserver.antt =====
-- Package internal/mcpserver: the tools.
pub mod Blocks
pub mod Sessions
pub mod Debug
pub mod Base64
pub mod Target
pub mod Tools
