-- ===== src/Contract/Silent.antt =====
-- src/mcp_quality/contract/silent_failure.py: a success whose content is an error, or empty.
use mcp_probe.Base.{
  String, true, Option, Bool, some, List, ◌<>◌, ◌∷◌, false, not, none, ℕ, if◌then◌else◌, is_some,
  [], ◌&&◌, str_empty, ◌≡◌, ◌||◌, arith,
}
use mcp_probe.Base.Json.{Json, null, obj, arr, str, end, nil, of_fields, get_key, truthy?}
use mcp_probe.Base.Regex.{
  Wide, Regex, boundary, text, texts, seq, any_of, some_of, letter_or_underscore, search,
  strip_blank,
}
use mcp_probe.Models.{medium, Finding}
use mcp_probe.Contract.Results.{ToolResult}
use mcp_probe.Contract.Errors.{Writers, error_text}
use mcp_probe.Contract.Errors.Patterns.{stack_trace, as_word}

-- `_ERROR_SHAPED`
unfoldable pub error_shaped : Wide → Regex
error_shaped wide = any_of (stack_trace wide true) (
    seq (
      boundary
      ∷ some_of (letter_or_underscore true)
      ∷ texts true "Error" ("Exception" ∷ [])
      ∷ text true ":"
      ∷ [])
    ∷ as_word (text true "traceback")
    ∷ seq (boundary ∷ text true "error:" ∷ [])
    ∷ as_word (text true "failed")
    ∷ [])

-- `promises_content`
unfoldable pub promises_content : Option Json → Bool
promises_content none = false
promises_content (some schema) =
    truthy? (some schema)
    && (truthy? (get_key "required" schema) || truthy? (get_key "properties" schema))

-- `structured not in (None, {}, [], "")`
abbrev has_structure : Option Json → Bool
has_structure none = false
has_structure (some null) = false
has_structure (some (obj end)) = false
has_structure (some (arr nil)) = false
has_structure (some (str s)) = not (str_empty s)
has_structure (some _) = true

-- `_is_empty_result`
unfoldable pub is_empty_result : ToolResult → Bool
is_empty_result result =
    not (has_structure result.structured) && not (truthy? (some result.content))

-- The record of such a finding, before its evidence
abbrev silent_failure : String → String → String → Finding
silent_failure tool message remediation = record {
  family = "contract";
  code = "C13-silent-failure";
  severity = medium;
  message = message;
  tool = some tool;
  remediation = some remediation;
  owasp_id = none;
  source = "builtin";
  evidence = none;
}

module _ (writers : Writers) (wide : Wide) where
  -- The finding for a text that an error pattern matches.
  unfoldable pub marked_failure : String → List ℕ → Finding
  marked_failure tool marker =
      let stripped = strip_blank wide marker in
      record (silent_failure tool
        ("tool returned success (is_error=False) but the content is error-shaped ("
          <> (writers.quote stripped <> ") — an agent will treat a failure as a result"))
        "set is_error / return a JSON-RPC error when the tool fails, not a success") {
          evidence = some (of_fields (("marker", str (writers.of_codes stripped)) ∷ []));
        }

  unfoldable pub empty_failure : String → Finding
  empty_failure tool =
      silent_failure tool
        ("tool returned success with empty content though its output_schema promises "
          <> "fields — the agent gets nothing while believing the call succeeded")
        "return the promised content, or signal the no-result case with is_error"

  -- The test of a result that is no declared error.
  unfoldable pub judge_success : String → ToolResult → Option Json → Option Finding
  judge_success tool result schema =
      elim (search wide (error_shaped wide) (error_text writers wide result)) [
        | some marker ↦ some (marked_failure tool marker)
        | none ↦
            if promises_content schema && is_empty_result result
            then some (empty_failure tool)
            else none
      ]

  -- `detect_silent_failure`
  unfoldable pub detect_silent_failure : String → ToolResult → Option Json → Option Finding
  unfolding judge_success
  detect_silent_failure tool result schema =
      if result.is_error then none else judge_success tool result schema

  -- A result that is declared an error is never a silent failure. A declared success is one exactly
  -- when its text has an error's shape, or it is empty although its schema promises content.
  pub detect_silent_failure_iff :
      (tool : String) (result : ToolResult) (schema : Option Json)
      → is_some (detect_silent_failure tool result schema) ≡ (
          not result.is_error
          && (is_some (search wide (error_shaped wide) (error_text writers wide result))
              || (promises_content schema && is_empty_result result)))
  unfolding detect_silent_failure
  detect_silent_failure_iff tool result schema = ground arith
