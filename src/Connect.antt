-- ===== src/Connect.antt =====
-- src/mcp_quality/connect: from what a server or a dump says to a surface.
pub mod Hash
pub mod Discover
pub mod Transport
mod Examples
