-- ===== src/Contract/Errors.antt =====
-- src/mcp_quality/contract/errors.py: how recoverable is the error that a tool returned.
pub mod Grades
pub mod Patterns
use mcp_probe.Contract.Errors.Patterns.{leak_patterns, opaque_pattern, actionable_pattern}
use mcp_probe.Base.{
  String, not, ◌∷◌, ℕ, Bool, List, true, Option, if◌then◌else◌, ◌++◌, ◌==◌, [], ◌||◌, false, some,
  join, filter, str_empty, is_empty, none, zero, suc, inl, inr, map, ◌<>◌, codes,
}
use mcp_probe.Base.Json.{
  Json, Items, str, obj, arr, null, of_fields, of_items, items, get_key, truthy?,
}
use mcp_probe.Base.Regex.{
  Wide, Regex, one, many, boundary, starts, ends, then_, text, texts, seq, any_of, optional,
  some_of, times, lit, in_range, letter_or_underscore, is_word, is_digit, found_in, matches_in,
  strip_blank,
}
use mcp_probe.Models.{Severity, low, medium, high, Finding}
use mcp_probe.Contract.Results.{ToolResult}

-- `_f`
unfoldable pub error_finding :
    String → Severity → String → String → String → Option (List (String × Json)) → Finding
error_finding code severity tool message remediation evidence = record {
  family = "contract";
  code = code;
  severity = severity;
  message = message;
  tool = some tool;
  remediation = some remediation;
  owasp_id = none;
  source = "builtin";
  evidence = elim evidence [ none ↦ none | some fs ↦ some (of_fields fs) ];
}

pub record ErrorAffordance : Type 0 where
  pub affordance : ℕ
  pub findings : List Finding

-- What Python writes of a value: `json.dumps`, `str`, and `repr` of a text; and the text that code
-- points make.
pub record Writers : Type 0 where
  pub dumps : Json → String
  pub show : Json → String
  pub quote : List ℕ → String
  pub of_codes : List ℕ → String

module _ (wide : Wide) where
  abbrev labels : List (String × Regex) → List String
  labels [] = []
  labels ((label, r) ∷ ps) = label ∷ labels ps

  -- `leaked`
  unfoldable pub leaked : List ℕ → List String
  leaked payload =
      labels (filter (λ (p : String × Regex). found_in wide p.1 payload) (leak_patterns wide))

  unfoldable pub is_opaque : List ℕ → Bool
  is_opaque payload =
      let stripped = strip_blank wide payload in
      is_empty stripped || matches_in wide (opaque_pattern wide) stripped

  unfoldable pub is_actionable : List ℕ → Bool
  is_actionable payload = found_in wide (actionable_pattern wide) payload

  -- The four cases of a declared error.
  unfoldable pub grade_error_text : String → List ℕ → ErrorAffordance
  grade_error_text tool payload =
      if not (is_empty (leaked payload))
      then record {
        affordance = 25;
        findings =
            error_finding "C11-error-leak" high tool
              ("error payload leaks internals ("
                <> (join ", " (leaked payload) <> ") — info disclosure + hurts recovery"))
              "return a clean, categorized error; never surface stack traces / paths / secrets"
              (some (("leaked", arr (of_items (map str (leaked payload)))) ∷ []))
            ∷ [];
      }
      else if is_opaque payload
      then record {
        affordance = 40;
        findings =
            error_finding "C11-error-opaque" medium tool
              "error payload is opaque ('something went wrong') — the agent can't tell what to fix"
              "include a category/code and what the caller should change" none
            ∷ [];
      }
      else if not (is_actionable payload)
      then record {
        affordance = 70;
        findings =
            error_finding "C11-error-unactionable" low tool
              "error has detail but no actionable guidance (what to change, retryable, alternative)"
              "state the fix: which field, whether it's retryable, or an alternative tool" none
            ∷ [];
      }
      else record { affordance = 100; findings = [] }

module _ (writers : Writers) (wide : Wide) where
  -- `str(block.get("text") or json.dumps(block))`
  abbrev block_text : Json → String
  block_text (obj fs) =
      if truthy? (get_key "text" (obj fs))
      then elim (get_key "text" (obj fs)) [ none ↦ "" | some (str s) ↦ s | some v ↦ writers.show v ]
      else writers.dumps (obj fs)
  block_text (str s) = s
  block_text v = writers.show v

  abbrev content_parts : Json → List String
  content_parts (str s) = s ∷ []
  content_parts (obj fs) = writers.dumps (obj fs) ∷ []
  content_parts (arr xs) = map block_text (items xs)
  content_parts _ = []

  abbrev structured_parts : Option Json → List String
  structured_parts none = []
  structured_parts (some v) = writers.dumps v ∷ []

  -- `error_text`
  unfoldable pub error_text : ToolResult → List ℕ
  error_text result =
      let parts = structured_parts result.structured ++ content_parts result.content in
      strip_blank wide (codes (join " " (filter (λ p. not (str_empty p)) parts)))

  -- `grade_error_payload`
  unfoldable pub grade_error_payload : String → ToolResult → ErrorAffordance
  unfolding grade_error_text
  grade_error_payload tool result =
      if result.is_error then grade_error_text wide tool (error_text result) else record {
        affordance = 45;
        findings =
            error_finding "C11-silent-accept" low tool
              "tool returned a non-error result for schema-invalid input — no signal to correct"
              "reject invalid input with a clear error result" none
            ∷ [];
      }
