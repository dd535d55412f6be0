-- ===== src/Contract/Compat.antt =====
-- src/mcp_quality/contract/client_compat.py: what does not work with every client.
use mcp_probe.Base.{
  String, List, some, Bool, Option, true, ◌<>◌, ◌∷◌, [], none, false, any, str_eq, ◌||◌,
  if◌then◌else◌, ℕ, codes, flat_map, codes_eq, text_or_empty, ◌&&◌, filter_map, not,
}
use mcp_probe.Base.Dict.{Dict, keys, values}
use mcp_probe.Base.Json.{Json, obj, str, get_key, fields, is_true, find_field}
use mcp_probe.Base.Regex.{
  Wide, Regex, one, boundary, text, texts, seq, any_of, some_of, optional, is_word, is_blank, found,
  search, strip_blank, lower_text,
}
use mcp_probe.Models.{low, Finding, ToolDef}
use mcp_probe.Contract.Errors.{Writers}
use mcp_probe.Contract.Errors.Patterns.{as_word}

-- `_PAGINATION_PARAMS`
abbrev pub pagination_params : List String
pagination_params =
    "limit" ∷ "page" ∷ "page_size" ∷ "pagesize" ∷ "per_page" ∷ "perpage" ∷ "cursor" ∷ "offset"
    ∷ "max_results" ∷ "maxresults" ∷ "top" ∷ "count" ∷ "first" ∷ "after" ∷ []

-- `_top_level_properties`
unfoldable pub top_level_properties : Json → Dict Json
top_level_properties schema = elim (get_key "properties" schema) [
  | some (obj fs) ↦ fields fs
  | _ ↦ []
]

-- `name.lower() in _PAGINATION_PARAMS`
unfoldable pub is_pagination_param : String → Bool
is_pagination_param name = any (λ p. codes_eq (codes p) (lower_text (codes name))) pagination_params

-- `_has_pagination`
unfoldable pub has_pagination : Json → Bool
has_pagination schema = any is_pagination_param (keys (top_level_properties schema))

-- `x.get("type") == "array"`
abbrev is_array_type : Json → Bool
is_array_type v = elim (get_key "type" v) [ some (str s) ↦ str_eq s "array" | _ ↦ false ]

abbrev array_somewhere : Option Json → Bool
array_somewhere none = false
array_somewhere (some out) =
    is_array_type out || any is_array_type (values (top_level_properties out))

-- `_DESTRUCTIVE_WORD`
unfoldable pub destructive_word : Regex
destructive_word = as_word (
    texts true "delete" (
      "deletes" ∷ "remove" ∷ "removes" ∷ "destroy" ∷ "destroys" ∷ "drop" ∷ "drops" ∷ "purge"
      ∷ "purges" ∷ "erase" ∷ "erases" ∷ "permanent" ∷ "permanently" ∷ "irreversible"
      ∷ "irreversibly" ∷ "cannot be undone" ∷ "wipe" ∷ "wipes" ∷ []))

-- `Finding(family="contract", severity=Severity.LOW, ...)`
abbrev compat_finding : String → String → String → String → Finding
compat_finding code tool message remediation = record {
  family = "contract";
  code = code;
  severity = low;
  message = message;
  tool = some tool;
  remediation = some remediation;
  owasp_id = none;
  source = "builtin";
  evidence = none;
}

unfoldable pub oversized_finding : String → Finding
oversized_finding tool =
    compat_finding "C14-oversized-output" tool
      ("returns an unbounded collection with no pagination/limit parameter — clients "
        <> "with smaller context or token budgets (e.g. Cursor) may truncate or reject the output")
      "add a limit/cursor parameter (and a default cap) so the result stays bounded"

unfoldable pub annotation_only_finding : String → Finding
annotation_only_finding tool =
    compat_finding "C14-annotation-only-safety" tool
      ("destructive tool whose only safety signal is the destructiveHint annotation — "
        <> "clients that ignore annotations will give the user no warning before it runs")
      "state the destructive effect in the tool name/description, not only in the annotation"

module _ (wide : Wide) where
  abbrev blanks : Regex
  blanks = some_of (one (is_blank wide))

  -- `_COLLECTION_HINT`
  unfoldable pub collection_hint : Regex
  collection_hint = seq (
      boundary
      ∷ any_of (seq (text true "return" ∷ optional (text true "s") ∷ [])) (
          seq (text true "list" ∷ optional (text true "s") ∷ [])
          ∷ seq (text true "fetch" ∷ optional (text true "es") ∷ [])
          ∷ seq (text true "get" ∷ optional (text true "s") ∷ [])
          ∷ seq (text true "retrieve" ∷ optional (text true "s") ∷ [])
          ∷ seq (text true "dump" ∷ optional (text true "s") ∷ [])
          ∷ [])
      ∷ blanks
      ∷ any_of (text true "all") (
          text true "every"
          ∷ seq (
              text true "the"
              ∷ blanks
              ∷ texts true "full" ("entire" ∷ "complete" ∷ "whole" ∷ [])
              ∷ [])
          ∷ [])
      ∷ boundary
      ∷ [])

  -- `_NONPORTABLE_CONTENT`
  unfoldable pub nonportable_content : Regex
  nonportable_content = any_of (as_word (text true "ANSI")) (
      seq (boundary ∷ text true "terminal escape" ∷ [])
      ∷ seq (
          boundary
          ∷ some_of (one (is_word wide))
          ∷ text true "/"
          ∷ texts true "html" ("png" ∷ "jpeg" ∷ "jpg" ∷ "gif" ∷ "svg+xml" ∷ [])
          ∷ boundary
          ∷ [])
      ∷ seq
          (text true "<" ∷ texts true "img" ("div" ∷ "span" ∷ "table" ∷ "svg" ∷ []) ∷ boundary ∷ [])
      ∷ text true "data:image/"
      ∷ [])

  -- `_implies_collection`
  unfoldable pub implies_collection : ToolDef → Bool
  implies_collection t =
      array_somewhere t.output_schema || found wide collection_hint (text_or_empty t.description)

  -- `_check_oversized_output`
  unfoldable pub check_oversized_output : ToolDef → Option Finding
  check_oversized_output t =
      if implies_collection t && not (has_pagination t.input_schema)
      then some (oversized_finding t.name)
      else none

  -- `_check_annotation_only_safety`
  unfoldable pub check_annotation_only_safety : ToolDef → Option Finding
  check_annotation_only_safety t =
      if is_true (find_field "destructiveHint" t.annotations)
        && not (found wide destructive_word (t.name <> " " <> text_or_empty t.description))
      then some (annotation_only_finding t.name)
      else none

  module _ (writers : Writers) where
    unfoldable pub nonportable_finding : String → List ℕ → Finding
    nonportable_finding tool marker =
        compat_finding "C14-nonportable-content" tool
          ("description relies on a client-specific content/rendering hint ("
            <> (writers.quote (strip_blank wide marker)
                <> ") — clients that don't render it show raw markup or drop it"))
          ("return plain text or structured data and let the client render; "
            <> "don't assume rich display")

    -- `_check_nonportable_content`
    unfoldable pub check_nonportable_content : ToolDef → Option Finding
    check_nonportable_content t =
        elim (search wide nonportable_content (codes (text_or_empty t.description))) [
          | none ↦ none
          | some marker ↦ some (nonportable_finding t.name marker)
        ]

    -- `grade_client_compat`
    unfoldable pub grade_client_compat : List ToolDef → List Finding
    grade_client_compat tools =
        flat_map
          (λ (t : ToolDef).
            filter_map (λ o. o)
              (check_oversized_output t
                ∷ check_nonportable_content t
                ∷ check_annotation_only_safety t
                ∷ []))
          tools
