-- ===== src/Snapshot.antt =====
-- src/mcp_quality/snapshot/store.py: the committed baseline and the drift against it.
pub mod Fingerprint
pub mod Store
mod Examples
