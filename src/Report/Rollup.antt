-- ===== src/Report/Rollup.antt =====
-- src/mcp_quality/report/rollup.py: the pass/fail verdict over a scored report.
pub mod Meaning
use mcp_probe.Base.{
  String, List, Bool, filter_map, ◌∷◌, filter, not, Option, if◌then◌else◌, ◌&&◌, is_empty, [], elem,
  str_empty, ltb, ◌<>◌, ◌||◌, ◌++◌, text_or_empty, none, str_eq, some, false,
}
use mcp_probe.Base.Dict
use mcp_probe.Base.Dict.{Dict, keys, has_key, last}
use mcp_probe.Base.Sorting.{sort_texts}
use mcp_probe.Models.{Severity, value, Finding, FamilyScore, Report, tool}

-- `ALL_FAMILIES` of config.py
abbrev pub all_families : List String
all_families = "contract" ∷ "legibility" ∷ "cost" ∷ "performance" ∷ "security" ∷ "safety" ∷ []

-- `_ordered_families`
unfoldable pub ordered_families : Dict FamilyScore → List String
ordered_families families =
    let extra = sort_texts (filter (λ n. not (elem n all_families)) (keys families)) in
    filter (λ n. has_key n families) (all_families ++ extra)

-- `if f.remediation`
abbrev has_fix : Finding → Bool
has_fix f = not (str_empty (text_or_empty f.remediation))

-- `max(findings, key=severity)`: the first of the most severe
unfoldable pub most_severe : Finding → List Finding → Finding
unfolding value
most_severe best [] = best
most_severe best (f ∷ fs) =
    most_severe (if ltb (value best.severity) (value f.severity) then f else best) fs

-- `_top_remediation`
unfoldable pub top_remediation : List Finding → Option String
top_remediation findings = elim (filter has_fix findings) [
  | [] ↦ none
  | f ∷ fs ↦ (most_severe f fs).remediation
]

-- `_blocker_reason`
unfoldable pub blocker_reason : String → String → Bool → String
blocker_reason family grade hard_gate_tripped =
    if hard_gate_tripped
    then family <> " tripped a hard gate (broken contract / critical finding)"
    else family <> " graded " <> grade

pub record Blocker : Type 0 where
  pub family : String
  pub reason : String
  pub remediation : Option String

pub record Verdict : Type 0 where
  pub passed : Bool
  pub blockers : List Blocker
  pub caveats : List String

-- The test of the loop: a measured family with a tripped gate or an F.
unfoldable pub blocks : FamilyScore → Bool
blocks fam = fam.measured && (fam.hard_gate_tripped || str_eq fam.grade "F")

-- One turn of the loop of `quality_verdict`: the blocker, or the caveat, that a family gives.
unfoldable pub blocker_of : Dict FamilyScore → String → Option Blocker
unfolding blocks
blocker_of families name = elim (Dict.get name families) [
  | none ↦ none
  | some fam ↦
      if blocks fam
      then some (record {
        family = name;
        reason = blocker_reason name fam.grade fam.hard_gate_tripped;
        remediation = top_remediation fam.findings;
      })
      else none
]

unfoldable pub is_caveat : Dict FamilyScore → String → Bool
is_caveat families name = elim (Dict.get name families) [
  | none ↦ false
  | some fam ↦ not fam.measured
]

-- `quality_verdict`
unfoldable pub quality_verdict : Report → Verdict
quality_verdict report =
    let families = report.families in
    let names = ordered_families families in
    let blockers = filter_map (blocker_of families) names in
    record {
      passed = is_empty blockers;
      blockers = blockers;
      caveats = filter (is_caveat families) names;
    }
