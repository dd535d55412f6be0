-- ===== src/Security.antt =====
-- src/mcp_quality/security and engines/security.py: the lints, and the reconciliation of findings.
pub mod Issues
pub mod Scanners
pub mod Dedup
pub mod Authz
pub mod Paths
pub mod Patterns
pub mod Engine
mod Examples
