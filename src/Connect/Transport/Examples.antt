-- ===== src/Connect/Transport/Examples.antt =====
-- An example of two connections.
use mathlib.Core.List.{Permᴰ}
use mcp_probe.Base.{String, List, Option, some, none, refl, true, [], ◌≡◌, ◌∷◌}
use mcp_probe.Base.Json.{Json, str, obj, of_fields, end}
use mcp_probe.Models.{ServerSurface, ToolDef}
use mcp_probe.Connect.Hash.{compute_hash, with_hash}
use mcp_probe.Connect.Hash.Permuted.{distinct_names}
use mcp_probe.Connect.Discover.{tool_from_raw, surface_from_tools, normalize_annotations}
use mcp_probe.Connect.Transport.{Page, listed, list_all, tools_list_stable}
use mcp_probe.Connect.Transport.Stable.{tools_list_stable-Perm}

abbrev raw : String → Json
raw name = obj (of_fields (("name", str name) ∷ []))

abbrev raws : List Json
raws = raw "search" ∷ raw "fetch" ∷ []

abbrev swapped_raws : List Json
swapped_raws = raw "fetch" ∷ raw "search" ∷ []

-- A server that lists the tools the other way round.
abbrev server : Unit {0} → Option String → Option Page × Unit {0}
server s c = (some (record { entries = swapped_raws; next_cursor = none }), tt)

abbrev plain : String → ToolDef
plain name = record {
  name = name;
  description = none;
  input_schema = obj end;
  output_schema = none;
  annotations = end;
  title = none;
}

abbrev digest : String → String
digest s = s

abbrev dumps : Json → String
dumps v = "[]"

abbrev surface : ServerSurface
surface = record {
  tools = plain "search" ∷ plain "fetch" ∷ [];
  resources = [];
  prompts = [];
  server_info = end;
  capabilities = end;
  protocol_version = "";
  transport = "stdio";
  surface_hash = compute_hash digest dumps (plain "search" ∷ plain "fetch" ∷ []);
}

discovered : surface_from_tools digest dumps raws [] [] end end "" "stdio" ≡ some surface
unfolding surface_from_tools tool_from_raw normalize_annotations with_hash
discovered = refl

two_names : distinct_names surface.tools ≡ true
unfolding distinct_names
two_names = refl

second_listing : list_all server 2 tt none ≡ listed swapped_raws tt
unfolding list_all
second_listing = refl

reordered : Permᴰ raws swapped_raws
reordered = Permᴰ.swap refl refl

tools_list_stable-Perm_example :
    tools_list_stable server server server digest dumps 2 tt surface.surface_hash ≡ some true
tools_list_stable-Perm_example =
    tools_list_stable-Perm digest dumps server server server raws swapped_raws [] [] end end ""
      "stdio" surface 2 tt tt discovered two_names second_listing reordered
