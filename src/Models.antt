-- ===== src/Models.antt =====
-- src/mcp_quality/models.py: the data model that every engine speaks, and the JSON forms of it.
mod Severities
mod Findings
mod Tools
mod Families
pub mod Roundtrip
pub mod Samples
mod Examples
unfoldable pub use Severities.*
unfoldable pub use Findings.*
unfoldable pub use Tools.*
unfoldable pub use Families.*
