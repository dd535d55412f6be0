-- ===== src/Legibility/Lints.antt =====
-- src/mcp_quality/legibility/lints.py: the checks of descriptions that need no model.
use mcp_probe.Base.{
  String, List, ℕ, Bool, Option, some, none, ◌>>=◌, true, ◌∷◌, if◌then◌else◌, show_nat, length, [],
  not, any, ◌||◌, filter, codes, traverse, false, ltb, ◌<>◌, codes_eq, ◌==◌, text_or_empty,
  flat_map, ◌++◌, is_empty, ◌&&◌, join,
}
use mcp_probe.Base.Dict.{Dict, keys, values}
use mcp_probe.Base.Sorting.{sort_texts}
use mcp_probe.Base.Json.{Json, obj, find_field, fields, truthy, truthy?, nat, str, of_fields}
use mcp_probe.Base.Regex.{
  Wide, Regex, text, texts, seq, any_of, optional, one, in_range, starts, ends, found, found_in,
  strip_blank, lower_text,
}
use mcp_probe.Models.{Finding, Severity, info, low, medium, high, ToolDef, ServerSurface}
use mcp_probe.Contract.Errors.Patterns.{as_word}

-- `_VAGUE`
unfoldable pub vague : Regex
vague = as_word (
    any_of (text true "various") (
      text true "stuff"
      ∷ text true "things"
      ∷ text true "data"
      ∷ text true "misc"
      ∷ seq (text true "etc" ∷ optional (text true ".") ∷ [])
      ∷ text true "and more"
      ∷ seq (text true "handle" ∷ optional (text true "s") ∷ [])
      ∷ []))

-- `_HAS_EXAMPLE`
unfoldable pub has_example : Regex
has_example = texts true "example" ("e.g." ∷ "for instance" ∷ "usage:" ∷ [])

-- `_AMBIGUOUS_PARAMS`
abbrev pub ambiguous_params : List String
ambiguous_params =
    "data" ∷ "obj" ∷ "arg" ∷ "args" ∷ "input" ∷ "param" ∷ "params" ∷ "tmp" ∷ "temp" ∷ "foo" ∷ "bar"
    ∷ "thing" ∷ "things" ∷ "stuff" ∷ "payload" ∷ "info" ∷ []

-- `_COLLECTION_TOOL`
unfoldable pub collection_tool : Regex
collection_tool = seq (
    any_of starts (text true "_" ∷ [])
    ∷ texts true "list"
        ("search" ∷ "query" ∷ "find" ∷ "browse" ∷ "feed" ∷ "history" ∷ "recent" ∷ "all" ∷ [])
    ∷ any_of (text true "_") (ends ∷ [])
    ∷ [])

-- `_PAGINATION_PARAMS`, here and in engines/cost.py
abbrev pub bounding_params : List String
bounding_params =
    "limit" ∷ "offset" ∷ "cursor" ∷ "page" ∷ "per_page" ∷ "page_size" ∷ "pagesize" ∷ "page_token"
    ∷ "max_results" ∷ "maxresults" ∷ "count" ∷ "top" ∷ "after" ∷ "before" ∷ []

abbrev ascii_digit : Regex
ascii_digit = one (in_range 48 57)

-- `_LEAKED_ID`
unfoldable pub leaked_id : Regex
leaked_id = as_word (
    any_of (text true "uuid") (
      text true "guid"
      ∷ seq (text true "mime" ∷ optional (text true "_") ∷ text true "type" ∷ [])
      ∷ text true "base64"
      ∷ seq (
          ascii_digit
          ∷ ascii_digit
          ∷ optional ascii_digit
          ∷ optional ascii_digit
          ∷ text true "px"
          ∷ [])
      ∷ text true "etag"
      ∷ text true "checksum"
      ∷ seq (text true "sha" ∷ optional (text true "-") ∷ text true "256" ∷ [])
      ∷ []))

-- `overload_band`
unfoldable pub overload_band : ℕ → String
overload_band n =
    if ltb 50 n
    then "overloaded"
    else if ltb 30 n
    then "degraded"
    else if ltb 15 n
    then "above-ideal"
    else "ok"

-- `_OVERLOAD_BANDS`
abbrev pub overload_bands : List (ℕ × Severity × String)
overload_bands =
    (50, medium, "past the ~40–50-tool cliff where agents start picking the wrong tool")
    ∷ (30, low, "above the comfortable range — tool selection begins to degrade")
    ∷ (15, info, "above the ~10–15-tool ideal for smaller models")
    ∷ []

-- The finding of a band
abbrev overload_finding : ℕ → Severity → String → Finding
overload_finding n severity why = record {
  family = "legibility";
  code = "L8-tool-overload";
  severity = severity;
  message = show_nat n <> " tools exposed — " <> why;
  tool = none;
  remediation = some (
      "group/namespace tools, split into focused sub-servers, or load "
      <> "tools dynamically (tool-search / RAG-MCP) so the agent sees only what it needs");
  owasp_id = none;
  source = "builtin";
  evidence = some (of_fields (("tool_count", nat n) ∷ ("band", str (overload_band n)) ∷ []));
}

unfoldable pub first_band : ℕ → List (ℕ × Severity × String) → Option Finding
first_band n [] = none
first_band n ((threshold, severity, why) ∷ bands) =
    if ltb threshold n then some (overload_finding n severity why) else first_band n bands

-- `lint_tool_overload`
unfoldable pub lint_tool_overload : ServerSurface → Option Finding
lint_tool_overload surface = first_band (length surface.tools) overload_bands

-- `_f`
abbrev pub lint : String → Severity → String → String → String → Finding
lint code severity tool message remediation = record {
  family = "legibility";
  code = code;
  severity = severity;
  message = message;
  tool = some tool;
  remediation = some remediation;
  owasp_id = none;
  source = "builtin";
  evidence = none;
}

-- `[x] if test else []`
abbrev pub when : Bool → Finding → List Finding
when test f = if test then f ∷ [] else []

-- `(t.input_schema or {}).get("properties", {})`, to be read by `.items()`
abbrev pub properties_of : Json → Option (Dict Json)
properties_of (obj fs) = elim (find_field "properties" fs) [
  | none ↦ some []
  | some (obj props) ↦ some (fields props)
  | some v ↦ none
]
properties_of v = if truthy v then none else some []

-- `isinstance(s, dict) and not s.get("description")`
abbrev pub is_undocumented : Json → Bool
is_undocumented (obj fs) = not (truthy? (find_field "description" fs))
is_undocumented v = false

-- `p.lower() in names`
abbrev pub lower_in : List String → String → Bool
lower_in names p = any (λ n. codes_eq (codes n) (lower_text (codes p))) names

-- `bool(set(map(str.lower, props)) & _PAGINATION_PARAMS)`
unfoldable pub is_boundable : Dict Json → Bool
is_boundable props = any (lower_in bounding_params) (keys props)

-- `p.lower() in _AMBIGUOUS_PARAMS or len(p) == 1`
unfoldable pub is_ambiguous : String → Bool
is_ambiguous p = lower_in ambiguous_params p || (length (codes p) == 1)

module _ (wide : Wide) where
  -- The findings of a tool with a description
  unfoldable pub lint_described : String → List ℕ → Dict Json → List Finding
  lint_described name desc props =
      let ambiguous = sort_texts (filter is_ambiguous (keys props)) in
      when (ltb 600 (length desc)) (
        lint "L3-over-long" low name
          ("description is "
            <> show_nat (length desc)
            <> " chars — trim it; every agent pays this each turn")
          "tighten to the essential contract; move detail to docs")
      ++ when (found_in wide vague desc) (
          lint "L3-vague" medium name "description uses vague language ('data', 'various', 'stuff')"
            "state concretely what the tool does and returns")
      ++ when (not (found_in wide has_example desc)) (
          lint "L3-no-example" low name "description has no example call"
            "add 'Example: <tool>(...)' — examples sharply improve selection")
      ++ when
          (not (is_empty props) && (length (filter is_undocumented (values props)) == length props))
          (lint "L3-undocumented-params" low name "no parameter has a description"
            "describe each parameter so agents fill them correctly")
      ++ when (not (is_empty ambiguous)) (
          lint "L3-ambiguous-param" low name ("generic parameter name(s): " <> join ", " ambiguous)
            "use specific names (e.g. `user_id`, not `id`/`data`)")
      ++ when (found wide collection_tool name && not (is_boundable props)) (
          lint "L3-no-pagination" low name
            "looks like it returns a collection but has no pagination param"
            "add a `limit`/`cursor` so callers can bound the response")
      ++ when (found_in wide leaked_id desc) (
          lint "L3-leaked-identifier" info name
            "description exposes a low-level identifier (uuid/mime_type/etc.)"
            "describe behaviour in the caller's terms, not implementation details")

  -- The loop's body in `lint_descriptions`; a schema that cannot be read raises
  unfoldable pub lint_tool : ToolDef → Option (List Finding)
  unfolding lint_described
  lint_tool t =
      let desc = strip_blank wide (codes (text_or_empty t.description)) in
      if is_empty desc
      then some (
          lint "L3-missing-description" high t.name
            "tool has no description — agents cannot tell what it does"
            "add a one-line description with an example"
          ∷ [])
      else properties_of t.input_schema >>= λ props. some (lint_described t.name desc props)

  -- `lint_descriptions`
  unfoldable pub lint_descriptions : ServerSurface → Option (List Finding)
  lint_descriptions surface = traverse lint_tool surface.tools >>= λ found_in_tools.
      some (flat_map (λ fs. fs) found_in_tools)
