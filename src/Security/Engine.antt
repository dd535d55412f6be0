-- ===== src/Security/Engine.antt =====
-- src/mcp_quality/engines/security.py: the engine over the lints and the external scanners.
-- What a scanner reports is a parameter.
use mcp_probe.Base.{
  String, List, ℕ, Bool, Option, ◌∷◌, some, leb, map, any, ◌++◌, is_some, [], none, true, false,
  if◌then◌else◌, length, str_empty, option_or, ◌+◌, min,
}
use mcp_probe.Base.Ratio.{Ratio, whole}
use mcp_probe.Base.Dict.{Dict, get, insert}
use mcp_probe.Base.Json.{Json, nat, str, obj, of_fields}
use mcp_probe.Base.Regex.{Wide}
use mcp_probe.Models.{Finding, FamilyScore, ServerSurface, value}
use mcp_probe.Scoring.Grade.{letter, grade_for_score}
use mcp_probe.Contract.Errors.{Writers}
use mcp_probe.Engines.Penalty.{penalty_score}
use mcp_probe.Security.Dedup.{dedup_findings, suppress_false_positives}
use mcp_probe.Security.Authz.{auth_block, scan_authorization}
use mcp_probe.Security.Paths.{scan_path_traversal}
use mcp_probe.Security.Patterns.{scan_injection, scan_secrets, scan_dangerous_capabilities}

-- `SecurityAdapter`: its name, whether it is on the path, and what it finds
pub record Scanner : Type 0 where
  pub name : String
  pub available : Bool
  pub reported : List Finding

-- `_run_adapters`, with the notes and what was collected before
unfoldable pub run_adapters : List Scanner → Dict String × List Finding → Dict String × List Finding
run_adapters [] state = state
run_adapters (a ∷ rest) (notes, collected) =
    let ran = run_adapters rest (insert a.name "ran" notes, collected ++ a.reported) in
    let missing =
      run_adapters rest (insert a.name "not measured (scanner not on PATH)" notes, collected) in
    if a.available then ran else missing

-- `by_owasp[f.owasp_id] = by_owasp.get(f.owasp_id, 0) + 1`
abbrev count_id : Option String → Dict ℕ → Dict ℕ
count_id none d = d
count_id (some k) d = if str_empty k then d else insert k (option_or (get k d) 0 + 1) d

unfoldable pub count_owasp : List Finding → Dict ℕ → Dict ℕ
count_owasp [] d = d
count_owasp (f ∷ fs) d = count_owasp fs (count_id f.owasp_id d)

-- `f.severity >= Severity.CRITICAL`
abbrev pub is_critical : Finding → Bool
is_critical f = leb 4 (value f.severity)

abbrev notes_json : Bool → Dict String → Json
notes_json true notes = obj (of_fields (map (λ (e : String × String). (e.0, str e.1)) notes))
notes_json false notes = str "not measured"

-- The family's record of the findings
unfoldable pub security_result : List Finding → Json → Bool → ℕ → FamilyScore
security_result findings deep_status authz_measured path_count =
    let gate = any is_critical findings in
    let open_score = penalty_score findings in
    let score = whole (if gate then min open_score 55 else open_score) in
    record {
      family = "security";
      score = some score;
      grade = letter (grade_for_score score);
      hard_gate_tripped = gate;
      findings = findings;
      metrics =
          ("findings", nat (length findings))
          ∷ (
            "by_owasp",
            obj (of_fields (map (λ (e : String × ℕ). (e.0, nat e.1)) (count_owasp findings []))),
          )
          ∷ ("deep_security", deep_status)
          ∷ (
            "authz",
            str (if authz_measured then "measured" else "not measured (no auth metadata)"),
          )
          ∷ ("path_traversal", nat path_count)
          ∷ [];
      measured = true;
    }

module _ (wide : Wide) (writers : Writers) (log2 : Ratio → Ratio) where
  -- The findings of the lints
  unfoldable pub builtin_findings : ServerSurface → List Finding
  builtin_findings surface =
      scan_injection writers wide surface
      ++ scan_secrets writers wide log2 surface
      ++ scan_dangerous_capabilities writers wide surface
      ++ scan_authorization wide writers surface
      ++ scan_path_traversal writers surface

  -- The findings of the lints and, if they are asked for, of the scanners
  unfoldable pub gathered_findings : Bool → List Scanner → ServerSurface → List Finding
  gathered_findings deep scanners surface =
      builtin_findings surface
      ++ (if deep then suppress_false_positives (run_adapters scanners ([], [])).1 else [])

  -- `SecurityEngine.run`
  unfoldable pub security_run : Bool → List Scanner → ServerSurface → FamilyScore
  security_run deep scanners surface =
      security_result (dedup_findings (gathered_findings deep scanners surface))
        (notes_json deep (run_adapters scanners ([], [])).0) (is_some (auth_block surface))
        (length (scan_path_traversal writers surface))
