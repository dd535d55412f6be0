-- ===== src/Models/Tools.antt =====
-- src/mcp_quality/models.py: the discovery types.
use mcp_probe.Base.{String, Bool, Option, List, str_eq, find?}
use mcp_probe.Base.Json.{Json, Fields, truthy?, is_true, find_field}

pub record ToolDef : Type 0 where
  pub name : String
  pub description : Option String
  pub input_schema : Json
  pub output_schema : Option Json
  pub annotations : Fields
  pub title : Option String

-- `bool(self.annotations.get("readOnlyHint"))`
unfoldable pub is_read_only : ToolDef → Bool
is_read_only t = truthy? (find_field "readOnlyHint" t.annotations)

-- `self.annotations.get("destructiveHint") is True`
unfoldable pub is_destructive : ToolDef → Bool
is_destructive t = is_true (find_field "destructiveHint" t.annotations)

pub record ResourceDef : Type 0 where
  pub uri : String
  pub name : Option String
  pub description : Option String
  pub mime_type : Option String

pub record PromptDef : Type 0 where
  pub name : String
  pub description : Option String
  pub arguments : List Json

pub record ServerSurface : Type 0 where
  pub tools : List ToolDef
  pub resources : List ResourceDef
  pub prompts : List PromptDef
  pub server_info : Fields
  pub capabilities : Fields
  pub protocol_version : String
  pub transport : String
  pub surface_hash : String

-- `ServerSurface.tool`
unfoldable pub tool : ServerSurface → String → Option ToolDef
tool s name = find? (λ (t : ToolDef). str_eq t.name name) s.tools
