-- ===== src/Scoring.antt =====
-- src/mcp_quality/scoring: family scores become one overall grade, and the reliability overlay.
pub mod Grade
pub mod Scorer
pub mod Reliability
mod Examples
