-- ===== src/Engines/Safety.antt =====
-- src/mcp_quality/engines/safety.py: are a tool's annotations true, and is a write safe to retry.
pub mod Gate
use mcp_probe.Base.{
  String, ℕ, List, Bool, Option, ◌<>◌, map, ◌∷◌, if◌then◌else◌, any, some, none, true, ◌&&◌, false,
  ◌++◌, has_prefix, flat_map, [], zero, suc, inl, inr, codes, ◌==◌, codes_eq, leb, not, ◌||◌,
  option_or, min, length, lower_code, text_or_empty, ◌+◌,
}
use mcp_probe.Base.Ratio.{whole}
use mcp_probe.Base.Dict
use mcp_probe.Base.Dict.{Dict, keys}
use mcp_probe.Base.Json.{
  Json, Fields, fields, end, find_field, is_true, is_false, nat, obj, of_fields,
}
use mcp_probe.Models.{
  Severity, low, medium, high, Finding, FamilyScore, ToolDef, ServerSurface, is_read_only,
}
use mcp_probe.Scoring.Grade.{letter, grade_for_score}
use mcp_probe.Snapshot.Fingerprint.{properties}
use mcp_probe.Engines.Penalty.{penalty_score}
use mcp_probe.Engines.WriteVerb.{write_named}
use mcp_probe.Base.Regex.{Wide, Regex, boundary, seq, any_of, text, optional, dot, found}

-- `_SIDE_EFFECT_NOTE`
unfoldable pub side_effect_note : Regex
side_effect_note = seq (
    boundary
    ∷ any_of (text true "idempotent") (
        seq (text true "side" ∷ optional dot ∷ text true "effect" ∷ [])
        ∷ seq (text true "exactly" ∷ optional dot ∷ text true "once" ∷ [])
        ∷ seq (
            text true "at" ∷ optional dot ∷ text true "most" ∷ optional dot ∷ text true "once" ∷ [])
        ∷ text true "retry"
        ∷ [])
    ∷ boundary
    ∷ [])

-- `_IDEMPOTENCY_PARAMS`
abbrev pub idempotency_params : List String
idempotency_params =
    "idempotency_key" ∷ "idempotencykey" ∷ "request_id" ∷ "requestid" ∷ "client_token"
    ∷ "clienttoken" ∷ "dedup_key" ∷ "dedupe_key" ∷ "nonce" ∷ []

-- `ch.lower()` of the code points that can come out as ASCII
abbrev lower_text_code : ℕ → ℕ
lower_text_code c = if c == 8490 then 107 else lower_code c

unfoldable pub is_idempotency_param : String → Bool
is_idempotency_param name =
    any (λ p. codes_eq (codes p) (map lower_text_code (codes name))) idempotency_params

-- `_f`
unfoldable pub safety_finding :
    String → Severity → String → String → String → Option String → Finding
safety_finding code severity tool message remediation owasp = record {
  family = "safety";
  code = code;
  severity = severity;
  message = message;
  tool = some tool;
  remediation = some remediation;
  owasp_id = owasp;
  source = "builtin";
  evidence = none;
}

-- `OWASP.PRIVILEGE_ESCALATION`
abbrev privilege_escalation : String
privilege_escalation = "MCP02:2025"

unfoldable pub untrue_read_only : ToolDef → Finding
untrue_read_only t =
    safety_finding "SC2-annotation-untrue" high t.name
      ("'" <> t.name <> "' is named like a state change but declares readOnlyHint=true")
      "correct the annotation — a host will auto-approve this without confirmation"
      (some privilege_escalation)

unfoldable pub untrue_destructive : ToolDef → Finding
untrue_destructive t =
    safety_finding "SC2-annotation-untrue" high t.name
      ("'" <> t.name <> "' is named like a state change but declares destructiveHint=false")
      "correct the annotation so hosts can gate the call" (some privilege_escalation)

unfoldable pub annotation_missing : ToolDef → Finding
annotation_missing t =
    safety_finding "SC1-annotation-missing" low t.name
      ("'" <> t.name <> "' looks state-changing but declares no annotations")
      "declare readOnlyHint/destructiveHint/idempotentHint so hosts can gate it"
      (some privilege_escalation)

unfoldable pub retry_unsafe : ToolDef → Finding
retry_unsafe t =
    safety_finding "SC3-retry-unsafe" medium t.name
      ("'" <> t.name <> "' is a write with no idempotency signal — retries may duplicate")
      "declare idempotentHint, accept an idempotency key, or document side effects" none

abbrev when : Bool → Finding → List Finding
when b f = if b then f ∷ [] else []

abbrev pub no_annotations : Fields → Bool
no_annotations end = true
no_annotations _ = false

-- The two tests of SC2.
unfoldable pub lies_read_only : ToolDef → Bool
lies_read_only t = write_named t.name && is_true (find_field "readOnlyHint" t.annotations)

unfoldable pub lies_destructive : ToolDef → Bool
lies_destructive t = write_named t.name && is_false (find_field "destructiveHint" t.annotations)

-- `f.code.startswith("SC2")`
unfoldable pub is_sc2 : Finding → Bool
is_sc2 f = has_prefix (codes "SC2") (codes f.code)

-- `by_code[f.code] = by_code.get(f.code, 0) + 1`
unfoldable pub count_codes : List Finding → Dict ℕ → Dict ℕ
count_codes [] counts = counts
count_codes (f ∷ fs) counts =
    count_codes fs (Dict.insert f.code (option_or (Dict.get f.code counts) 0 + 1) counts)

abbrev counts_json : Dict ℕ → Dict Json
counts_json [] = []
counts_json ((k, n) ∷ d) = (k, nat n) ∷ counts_json d

unfoldable pub safety_score : List Finding → ℕ
safety_score findings =
    if any is_sc2 findings then min (penalty_score findings) 55 else penalty_score findings

module _ (wide : Wide) where
  -- The test of SC3.
  unfoldable pub lacks_retry_story : ToolDef → Bool
  lacks_retry_story t =
      write_named t.name
      && (not (is_read_only t)
          && not (
              is_true (find_field "idempotentHint" t.annotations)
              || (any is_idempotency_param (keys (properties t.input_schema))
                  || found wide side_effect_note (text_or_empty t.description))))

  -- `check_safety_contract`
  unfoldable pub check_safety_contract : ToolDef → List Finding
  check_safety_contract t =
      when (lies_read_only t) (untrue_read_only t)
      ++ (when (lies_destructive t) (untrue_destructive t)
          ++ (when (write_named t.name && no_annotations t.annotations) (annotation_missing t)
              ++ when (lacks_retry_story t) (retry_unsafe t)))

  unfoldable pub safety_findings : List ToolDef → List Finding
  safety_findings tools = flat_map check_safety_contract tools

  -- `SafetyEngine.run`
  unfoldable pub safety_run : ServerSurface → FamilyScore
  safety_run surface =
      let findings = safety_findings surface.tools in
      let score = whole (safety_score findings) in
      record {
        family = "safety";
        score = some score;
        grade = letter (grade_for_score score);
        hard_gate_tripped = any is_sc2 findings;
        findings = findings;
        metrics =
            ("findings", nat (length findings))
            ∷ ("by_code", obj (of_fields (counts_json (count_codes findings []))))
            ∷ [];
        measured = true;
      }
