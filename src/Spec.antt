-- ===== src/Spec.antt =====
-- src/mcp_quality/connect/capture.py, engines/spec_surface.py and engines/tasks_checks.py: what a
-- server asks of its client while it runs, and the family that grades it.
pub mod Capture
pub mod Client
pub mod Tasks
pub mod Messages
pub mod Drive
pub mod Surface
mod Examples
