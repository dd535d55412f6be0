-- ===== src/Fix.antt =====
-- src/mcp_quality/fix.py: rewriting descriptions in a source text.
pub mod Rewrites
pub mod Edits
mod Examples
