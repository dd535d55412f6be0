-- ===== src/Engines.antt =====
-- src/mcp_quality/engines: the checks of a family, and the score that they make of their findings.
pub mod Penalty
pub mod WriteVerb
pub mod Safety
pub mod Stateless
pub mod Performance
pub mod Tokens
pub mod Cost
mod Examples
