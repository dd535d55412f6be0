-- ===== src/Connect/Discover.antt =====
-- src/mcp_quality/connect/discover.py: a surface from what discovery or a dump says.
-- A value of a type that the annotations of `ToolDef`, `ResourceDef`, `PromptDef` exclude is an
-- exception here, as a missing key is: `none`.
pub mod Hints
use mcp_probe.Base.{
  ◌>>=◌, str_empty, String, Option, some, none, List, if◌then◌else◌, str_eq, [], ◌∷◌, traverse,
}
use mcp_probe.Base.Dict.{Dict, insert}
use mcp_probe.Base.Json.{
  Json, null, obj, arr, str, Fields, end, fields, of_fields, items, find_field, truthy, field,
}
use mcp_probe.Base.Json.Typed.{optional, required}
use mcp_probe.Models.{ToolDef, ResourceDef, PromptDef, ServerSurface}
use mcp_probe.Connect.Hash.{with_hash}

-- `_CANON_ANNOTATION.get(key, key)`
unfoldable pub canon : String → String
canon key =
    if str_eq key "read_only_hint"
    then "readOnlyHint"
    else if str_eq key "destructive_hint"
    then "destructiveHint"
    else if str_eq key "idempotent_hint"
    then "idempotentHint"
    else if str_eq key "open_world_hint"
    then "openWorldHint"
    else key

-- The loop of `_normalize_annotations`: what one item does to `out`
unfoldable pub normalize_item : Dict Json → String → Json → Dict Json
normalize_item out key null = out
normalize_item out key value = insert (canon key) value out

unfoldable pub normalize_items : Dict Json → List (String × Json) → Dict Json
normalize_items out [] = out
normalize_items out ((key, value) ∷ rest) = normalize_items (normalize_item out key value) rest

-- `_normalize_annotations`; `.items()` of what is no object raises
unfoldable pub normalize_annotations : Option Json → Option (Dict Json)
normalize_annotations none = some []
normalize_annotations (some (obj fs)) = some (normalize_items [] (fields fs))
normalize_annotations (some v) = if truthy v then none else some []

-- `raw.get(k)`
abbrev pub get_raw : String → Fields → Json
get_raw k raw = elim (find_field k raw) [ none ↦ null | some v ↦ v ]

-- `a or b`
abbrev pub or_else : Json → Json → Json
or_else a b = if truthy a then a else b

abbrev pub not_null : Json → Option Json
not_null null = none
not_null v = some v

-- `tuple(x or ())`, `x or []`, for a list
abbrev pub list_or_empty : Json → Option (List Json)
list_or_empty (arr xs) = some (items xs)
list_or_empty v = if truthy v then none else some []

-- `x or {}`, for an object
abbrev pub object_or_empty : Json → Option Fields
object_or_empty (obj fs) = some fs
object_or_empty v = if truthy v then none else some end

-- A text or None
abbrev pub text_or_none : Json → Option (Option String)
text_or_none null = some none
text_or_none (str s) = some (some s)
text_or_none v = none

-- `x or ""`, for a text
abbrev pub text_or_blank : Json → Option String
text_or_blank (str s) = some s
text_or_blank v = if truthy v then none else some ""

-- `raw` as an object
abbrev pub as_object : Json → Option Fields
as_object (obj fs) = some fs
as_object v = none

-- `_tool_from_raw`
unfoldable pub tool_from_raw : Json → Option ToolDef
tool_from_raw v = do
  raw ← as_object v
  name ← required "name" raw
  description ← optional "description" raw
  annotations ← normalize_annotations (find_field "annotations" raw)
  title ← optional "title" raw
  some (record {
    name = name;
    description = description;
    input_schema =
        or_else (get_raw "inputSchema" raw) (or_else (get_raw "input_schema" raw) (obj end));
    output_schema = not_null (or_else (get_raw "outputSchema" raw) (get_raw "output_schema" raw));
    annotations = of_fields annotations;
    title = title;
  })

-- `raw.get("uri", "")`
abbrev pub uri_of : Option Json → Option String
uri_of none = some ""
uri_of (some (str s)) = some s
uri_of (some v) = none

-- `_resource_from_raw`
unfoldable pub resource_from_raw : Json → Option ResourceDef
resource_from_raw v = do
  raw ← as_object v
  uri ← uri_of (find_field "uri" raw)
  name ← optional "name" raw
  description ← optional "description" raw
  mime_type ← text_or_none (or_else (get_raw "mimeType" raw) (get_raw "mime_type" raw))
  some (record { uri = uri; name = name; description = description; mime_type = mime_type })

-- `_prompt_from_raw`
unfoldable pub prompt_from_raw : Json → Option PromptDef
prompt_from_raw v = do
  raw ← as_object v
  name ← required "name" raw
  description ← optional "description" raw
  arguments ← list_or_empty (get_raw "arguments" raw)
  some (record { name = name; description = description; arguments = arguments })

-- `payload.get("tools", [])`
abbrev pub list_at : Option Json → Option (List Json)
list_at none = some []
list_at (some (arr xs)) = some (items xs)
list_at (some (obj end)) = some []
list_at (some (str s)) = if str_empty s then some [] else none
list_at (some v) = none

-- `data["result"]` where it is an object, else `data`
abbrev pub result_or : Fields → Option Json → Fields
result_or fs (some (obj gs)) = gs
result_or fs _ = fs

module _ (sha256 : String → String) (dumps : Json → String) where
  -- `surface_from_tools`
  unfoldable pub surface_from_tools :
      List Json → List Json → List Json → Fields → Fields → String → String → Option ServerSurface
  surface_from_tools tools resources prompts server_info capabilities protocol_version transport =
      do
        ts ← traverse tool_from_raw tools
        rs ← traverse resource_from_raw resources
        ps ← traverse prompt_from_raw prompts
        some (
            with_hash sha256 dumps (record {
              tools = ts;
              resources = rs;
              prompts = ps;
              server_info = server_info;
              capabilities = capabilities;
              protocol_version = protocol_version;
              transport = transport;
              surface_hash = "";
            }))

  -- The call that `surface_from_payload` ends with
  unfoldable pub surface_of_object : Fields → Option ServerSurface
  unfolding surface_from_tools
  surface_of_object payload = do
    tools ← list_at (find_field "tools" payload)
    resources ← list_or_empty (get_raw "resources" payload)
    prompts ← list_or_empty (get_raw "prompts" payload)
    server_info ←
        object_or_empty (or_else (get_raw "serverInfo" payload) (get_raw "server_info" payload))
    capabilities ← object_or_empty (get_raw "capabilities" payload)
    protocol_version ←
        text_or_blank
          (or_else (get_raw "protocolVersion" payload) (get_raw "protocol_version" payload))
    surface_from_tools tools resources prompts server_info capabilities protocol_version "stdio"

  -- `surface_from_payload`
  unfoldable pub surface_from_payload : Json → Option ServerSurface
  surface_from_payload (arr tools) = surface_of_object (field "tools" (arr tools) end)
  surface_from_payload (obj fs) = surface_of_object (result_or fs (find_field "result" fs))
  surface_from_payload v = none
