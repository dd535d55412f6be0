-- ===== src/Report.antt =====
-- src/mcp_quality/report: projections of a scored report.
pub mod Rollup
pub mod History
pub mod Emitter
pub mod Badge
mod Examples
