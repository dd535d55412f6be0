-- ===== src/Legibility.antt =====
-- src/mcp_quality/legibility: the panel of models.
pub mod Consensus
mod Examples
pub mod Lints
pub mod Similarity
pub mod Model
pub mod Probe
pub mod Cache
pub mod Engine
pub mod Run
