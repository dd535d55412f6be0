-- ===== src/Connect/Hash.antt =====
-- src/mcp_quality/models.py: the hash of a surface. SHA-256 and `json.dumps` are parameters.
pub mod Order
pub mod Permuted
use mcp_probe.Base.{
  String, Option, ◌∷◌, Bool, List, some, text_or_empty, str_leb, map, ◌<>◌, [], none, true, false,
  zero, suc, inl, inr,
}
use mcp_probe.Base.Sorting.{sort}
use mcp_probe.Base.Json.{Json, null, str, obj, arr, of_fields, of_items}
use mcp_probe.Models.{ToolDef, ServerSurface}

abbrev json_or_null : Option Json → Json
json_or_null none = null
json_or_null (some v) = v

-- The entry of a tool, with its name.
unfoldable pub payload_item : ToolDef → String × Json
payload_item t = (
  t.name,
  obj (
      of_fields (
        ("name", str t.name)
        ∷ ("description", str (text_or_empty t.description))
        ∷ ("input_schema", t.input_schema)
        ∷ ("output_schema", json_or_null t.output_schema)
        ∷ [])),
)

-- `key=lambda d: str(d["name"])`
abbrev pub by_name : String × Json → String × Json → Bool
by_name a b = str_leb a.0 b.0

abbrev pub values_of : List (String × Json) → List Json
values_of [] = []
values_of ((k, v) ∷ ps) = v ∷ values_of ps

-- `canonical_payload`, before `json.dumps`
unfoldable pub payload_items : List ToolDef → Json
payload_items tools = arr (of_items (values_of (sort by_name (map payload_item tools))))

module _ (sha256 : String → String) (dumps : Json → String) where
  -- `ServerSurface.compute_hash`
  unfoldable pub compute_hash : List ToolDef → String
  compute_hash tools = "sha256:" <> sha256 (dumps (payload_items tools))

  -- `ServerSurface.with_hash`
  unfoldable pub with_hash : ServerSurface → ServerSurface
  with_hash s = record s { surface_hash = compute_hash s.tools }
