-- ===== src/Perf.antt =====
-- src/mcp_quality/perf: the load driver, and the merge of a fleet's results.
pub mod Load
pub mod Drive
pub mod Wire
mod Examples
