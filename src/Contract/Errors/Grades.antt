-- ===== src/Contract/Errors/Grades.antt =====
-- src/mcp_quality/contract/errors.py: which errors are graded as fully recoverable.
use mcp_probe.Base.{String, List, ◌≤◌, ℕ, ◌==◌, Bool, ◌≡◌, is_empty, ◌&&◌, not, arith}
use mcp_probe.Base.Regex.{Wide}
use mcp_probe.Contract.Results.{ToolResult}
use mcp_probe.Contract.Errors.{
  Writers, error_text, leaked, is_opaque, is_actionable, grade_error_text, grade_error_payload,
}

-- The grader has nothing to say of the text.
abbrev pub is_helpful : Wide → List ℕ → Bool
is_helpful wide payload =
    is_empty (leaked wide payload) && (not (is_opaque wide payload) && is_actionable wide payload)

grade_error_text-helpful :
    (wide : Wide) (tool : String) (payload : List ℕ)
    → ((grade_error_text wide tool payload).affordance ≤ 100)
      × (((grade_error_text wide tool payload).affordance == 100) ≡ is_helpful wide payload)
      × (is_empty (grade_error_text wide tool payload).findings ≡ is_helpful wide payload)
unfolding grade_error_text
grade_error_text-helpful wide tool payload = ground arith

-- The affordance of an answer to malformed input is at most 100. It is 100, and there is no finding,
-- exactly when the answer is a declared error whose text leaks no internals, is not opaque and is
-- actionable.
grade_error_payload-helpful_iff :
    (writers : Writers) (wide : Wide) (tool : String) (result : ToolResult)
    → ((grade_error_payload writers wide tool result).affordance ≤ 100)
      × (((grade_error_payload writers wide tool result).affordance == 100)
          ≡ (result.is_error && is_helpful wide (error_text writers wide result)))
      × (is_empty (grade_error_payload writers wide tool result).findings
          ≡ (result.is_error && is_helpful wide (error_text writers wide result)))
unfolding grade_error_payload
grade_error_payload-helpful_iff writers wide tool result =
    ground (arith, grade_error_text-helpful wide tool (error_text writers wide result))
