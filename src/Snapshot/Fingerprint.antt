-- ===== src/Snapshot/Fingerprint.antt =====
-- src/mcp_quality/snapshot/store.py: a tool's fingerprint, and the typed drift between two.
use mcp_probe.Base.{
  String, Option, List, Bool, some, text_or_empty, filter, ◌∷◌, option_or, if◌then◌else◌, map, [],
  not, elem, none, false, ◌++◌, ◌&&◌, filter_map,
}
use mcp_probe.Base.Dict
use mcp_probe.Base.Dict.{Dict, keys}
use mcp_probe.Base.Json.{Json, null, str, obj, arr, get_key, items, fields}
use mcp_probe.Base.Json.Equality.{json_eq}
use mcp_probe.Base.Sorting.{sort_texts, dedup}
use mcp_probe.Models.{ToolDef, is_read_only, is_destructive}

-- What `_tool_fingerprint` writes.
pub record Fingerprint : Type 0 where
  pub description_hash : String
  pub schema_hash : String
  pub read_only : Bool
  pub destructive : Bool
  pub required : List String
  pub params : Dict Json

-- A fingerprint as a baseline file holds it: an older format lacks some of the keys.
pub record StoredPrint : Type 0 where
  pub description_hash : Option String
  pub schema_hash : Option String
  pub read_only : Option Bool
  pub destructive : Option Bool
  pub required : Option (List String)
  pub params : Option (Dict Json)

-- `schema.get("properties") or {}`
abbrev pub properties : Json → Dict Json
properties schema = elim (get_key "properties" schema) [ some (obj fs) ↦ fields fs | _ ↦ [] ]

-- The texts of a JSON list.
abbrev text_items : List Json → List String
text_items [] = []
text_items (str s ∷ xs) = s ∷ text_items xs
text_items (_ ∷ xs) = text_items xs

-- `schema.get("required", []) or []`, for a list of texts; of a malformed list only the texts are
-- kept, where the program keeps the other items or cannot sort them
abbrev pub required_names : Json → List String
required_names schema = elim (get_key "required" schema) [
  | some (arr xs) ↦ text_items (items xs)
  | _ ↦ []
]

-- `v.get("type") if isinstance(v, dict) else None`
abbrev type_of : Json → Json
type_of v = elim (get_key "type" v) [ none ↦ null | some t ↦ t ]

abbrev types_of : Dict Json → Dict Json
types_of [] = []
types_of ((k, v) ∷ ps) = (k, type_of v) ∷ types_of ps

-- `_hash` (SHA-256, cut) and `json.dumps(schema, sort_keys=True)` are parameters.
module _ (hash : String → String) (dumps : Json → String) where
  -- `_tool_fingerprint`
  unfoldable pub tool_fingerprint : ToolDef → Fingerprint
  tool_fingerprint tool = record {
    description_hash = hash (text_or_empty tool.description);
    schema_hash = hash (dumps tool.input_schema);
    read_only = is_read_only tool;
    destructive = is_destructive tool;
    required = sort_texts (required_names tool.input_schema);
    params = types_of (properties tool.input_schema);
  }

-- What a capability change says; `detail` of the program is a text made of these.
pub data Detail : Type 0 where
  no_longer_read_only : Detail
  now_destructive : Detail
  new_required : List String → Detail
  removed_params : List String → Detail
  retyped : String → Json → Json → Detail

pub record CapabilityChange : Type 0 where
  pub tool : String
  pub detail : Detail

-- The key `kind`.
unfoldable pub kind : Detail → String
kind no_longer_read_only = "scope-expansion"
kind now_destructive = "scope-expansion"
kind (new_required ps) = "breaking-schema"
kind (removed_params ps) = "breaking-schema"
kind (retyped p old new) = "breaking-schema"

-- `sorted(set(xs) - set(ys))`
unfoldable pub only_in : List String → List String → List String
only_in xs ys = sort_texts (dedup (filter (λ s. not (elem s ys)) xs))

-- `sorted(set(xs) & set(ys))`
unfoldable pub in_both : List String → List String → List String
in_both xs ys = sort_texts (dedup (filter (λ s. elem s ys) xs))

abbrev list_change : (List String → Detail) → List String → List Detail
list_change make [] = []
list_change make (p ∷ ps) = make (p ∷ ps) ∷ []

-- `if old_p[p] != new_p[p]`
abbrev type_or_null : String → Dict Json → Json
type_or_null p d = option_or (Dict.get p d) null

unfoldable pub retyped_param : Dict Json → Dict Json → String → Option Detail
retyped_param old_p new_p p =
    let old_type = type_or_null p old_p in
    let new_type = type_or_null p new_p in
    if json_eq old_type new_type then none else some (retyped p old_type new_type)

-- The changes of one tool, in the order of `_capability_changes`.
unfoldable pub scope_changes : StoredPrint → Fingerprint → List Detail
scope_changes old new =
    (if option_or old.read_only false && not new.read_only then no_longer_read_only ∷ [] else [])
    ++ elim old.destructive [
      | none ↦ []
      | some was ↦ if not was && new.destructive then now_destructive ∷ [] else []
    ]

unfoldable pub schema_changes : StoredPrint → Fingerprint → List Detail
schema_changes old new =
    elim old.required [ none ↦ [] | some was ↦ list_change new_required (only_in new.required was) ]
    ++ elim old.params [
      | none ↦ []
      | some was ↦
          list_change removed_params (only_in (keys was) (keys new.params))
          ++ filter_map (retyped_param was new.params) (in_both (keys was) (keys new.params))
    ]

-- `_capability_changes`
unfoldable pub capability_changes : String → StoredPrint → Fingerprint → List CapabilityChange
unfolding scope_changes schema_changes
capability_changes name old new =
    map (λ d. record { tool = name; detail = d }) (scope_changes old new ++ schema_changes old new)
