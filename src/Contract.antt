-- ===== src/Contract.antt =====
-- src/mcp_quality/contract and engines/contract.py: does the server keep its contract.
pub mod Schema
pub mod Shapes
pub mod Synthesis
pub mod Results
pub mod Errors
pub mod Silent
pub mod Compat
pub mod Probe
pub mod Static
pub mod Loop
pub mod Engine
mod Examples
