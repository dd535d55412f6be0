-- ===== src/Contract/Schema.antt =====
-- src/mcp_quality/contract/schema.py: is a schema well-formed. What the package jsonschema reports
-- of a schema is a parameter.
use mcp_probe.Base.{
  String, List, ℕ, Bool, ◌∷◌, Option, if◌then◌else◌, ◌==◌, none, true, [], some, ◌++◌, ◌&&◌, false,
  ◌||◌, codes_eq, codes, has_prefix, elem, str_eq, not, ◌<>◌, is_empty,
}
use mcp_probe.Base.Json.{
  Json, Items, Fields, null, bool, int, float, str, arr, obj, nil, cons, end, field, get_key, nat,
  of_fields, of_items,
}
use mcp_probe.Snapshot.Fingerprint.{properties}

pub record SchemaIssue : Type 0 where
  pub path : String
  pub message : String

-- `ref.lstrip("#/")`
abbrev pub strip_ref : List ℕ → List ℕ
strip_ref [] = []
strip_ref (c ∷ cs) = if (c == 35) || (c == 47) then strip_ref cs else c ∷ cs

-- `text.split("/")`
unfoldable pub split_slash : List ℕ → List ℕ → List (List ℕ)
split_slash part [] = part ∷ []
split_slash part (c ∷ cs) =
    if c == 47 then part ∷ split_slash [] cs else split_slash (part ++ c ∷ []) cs

-- `text.replace("~" + digit, ch)`
abbrev pub replace_tilde : ℕ → ℕ → List ℕ → List ℕ
replace_tilde digit ch [] = []
replace_tilde digit ch (c ∷ []) = c ∷ []
replace_tilde digit ch (c ∷ e ∷ cs) =
    if (c == 126) && (e == digit)
    then ch ∷ replace_tilde digit ch cs
    else c ∷ replace_tilde digit ch (e ∷ cs)

-- `part.replace("~1", "/").replace("~0", "~")`
abbrev pub unescape : List ℕ → List ℕ
unescape part = replace_tilde 48 126 (replace_tilde 49 47 part)

-- `cur[part]`
unfoldable pub find_part : List ℕ → Fields → Option Json
find_part part end = none
find_part part (field k v fs) = if codes_eq (codes k) part then some v else find_part part fs

-- The walk of `_resolve_local_ref`: only objects have parts.
unfoldable pub resolve_parts : Json → List (List ℕ) → Bool
unfolding find_part
resolve_parts cur [] = true
resolve_parts (obj fs) (part ∷ parts) = elim (find_part (unescape part) fs) [
  | none ↦ false
  | some next ↦ resolve_parts next parts
]
resolve_parts _ (part ∷ parts) = false

-- `_resolve_local_ref`
unfoldable pub resolve_local_ref : Json → String → Bool
unfolding resolve_parts split_slash
resolve_local_ref root ref = resolve_parts root (split_slash [] (strip_ref (codes ref)))

-- `node.get("$ref")` where it is a local reference that leads nowhere
unfoldable pub ref_issues : Json → Fields → List SchemaIssue
ref_issues root fs = elim (get_key "$ref" (obj fs)) [
  | some (str ref) ↦
      if has_prefix (codes "#/") (codes ref) && not (resolve_local_ref root ref)
      then record { path = ref; message = "unresolvable local $ref: " <> ref } ∷ []
      else []
  | _ ↦ []
]

-- `_check_refs`; a schema read from JSON shares no nodes, so none is skipped as seen
unfoldable mutual
  pub check_refs : Json → Json → List SchemaIssue
  check_refs root (obj fs) = ref_issues root fs ++ check_fields root fs
  check_refs root (arr xs) = check_items root xs
  check_refs root null = []
  check_refs root (bool b) = []
  check_refs root (int s n) = []
  check_refs root (float x) = []
  check_refs root (str s) = []

  pub check_fields : Json → Fields → List SchemaIssue
  check_fields root end = []
  check_fields root (field k v fs) = check_refs root v ++ check_fields root fs

  pub check_items : Json → Items → List SchemaIssue
  check_items root nil = []
  check_items root (cons x xs) = check_refs root x ++ check_items root xs

-- `validate_schema`
unfoldable pub validate_schema : (Json → List SchemaIssue) → Json → List SchemaIssue
validate_schema check_schema (obj fs) = check_schema (obj fs) ++ check_refs (obj fs) (obj fs)
validate_schema check_schema _ = record { path = ""; message = "schema is not an object" } ∷ []

-- The answer that matches no declared shape.
abbrev unexpected : Json
unexpected = obj (
    of_fields (
      (
        "__mcp_quality_unexpected__",
        obj (of_fields (("nested", arr (of_items (nat 1 ∷ nat 2 ∷ nat 3 ∷ []))) ∷ [])),
      )
      ∷ []))

abbrev is_scalar_type : Option Json → Bool
is_scalar_type (some (str s)) = elem s ("string" ∷ "integer" ∷ "number" ∷ "boolean" ∷ [])
is_scalar_type _ = false

-- The value of the wrong type for a property.
unfoldable pub wrong_value : Json → Json
wrong_value sub =
    if is_scalar_type (get_key "type" sub)
    then obj (of_fields (("wrong", str "type") ∷ []))
    else nat 12345

abbrev wrong_values : List (String × Json) → List (String × Json)
wrong_values [] = []
wrong_values ((k, v) ∷ ps) = (k, wrong_value v) ∷ wrong_values ps

-- `schema.get("type") in (None, "object")`
abbrev object_type : Option Json → Bool
object_type none = true
object_type (some null) = true
object_type (some (str s)) = str_eq s "object"
object_type (some _) = false

-- `synthesize_invalid_args`
unfoldable pub synthesize_invalid_args : Json → Json
synthesize_invalid_args (obj fs) =
    if object_type (get_key "type" (obj fs)) && not (is_empty (properties (obj fs)))
    then obj (of_fields (wrong_values (properties (obj fs))))
    else unexpected
synthesize_invalid_args _ = unexpected
