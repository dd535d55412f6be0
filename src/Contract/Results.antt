-- ===== src/Contract/Results.antt =====
-- src/mcp_quality/connect/client.py: what a call of a tool gives.
use mcp_probe.Base.{String, Option, Bool}
use mcp_probe.Base.Json.{Json}

-- What a call gives: a result, or an exception with its text.
pub record ToolResult : Type 0 where
  pub content : Json
  pub structured : Option Json
  pub is_error : Bool

pub data Answer : Type 0 where
  raised : String → Answer
  answered : ToolResult → Answer
