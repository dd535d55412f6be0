-- ===== src/Pipeline.antt =====
-- src/mcp_quality/pipeline.py: engines, overlay, readiness, snapshot and gates of one run.
pub mod Engines
pub mod Overlay
pub mod Readiness
pub mod Gates
pub mod Run
mod Samples
mod Examples
