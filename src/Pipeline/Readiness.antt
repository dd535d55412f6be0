-- ===== src/Pipeline/Readiness.antt =====
-- src/mcp_quality/pipeline.py: `_fold_readiness`. What an adapter reports is a parameter.
use mcp_probe.Base.{
  Bool, Option, ◌++◌, List, [], ◌∷◌, none, some, true, false, ◌+◌, if◌then◌else◌, ◌==◌, str_eq, ◌-◌,
}
use mcp_probe.Base.Dict
use mcp_probe.Base.Dict.{Dict, last}
use mcp_probe.Base.Json.{Json, nat, int}
use mcp_probe.Models.{Finding, FamilyScore}

pub record Adapter : Type 0 where
  pub available : Bool
  pub scan : List Finding

-- `setdefault("readiness_findings", 0)` and `+= 1`
abbrev one_more : Option Json → Json
one_more (some (int false n)) = nat (n + 1)
one_more (some (int true n)) = if n == 0 then nat 1 else if n == 1 then nat 0 else int true (n - 1)
one_more (some other) = other
one_more none = nat 1

unfoldable pub attach_finding : Finding → FamilyScore → FamilyScore
attach_finding finding fam = record fam {
  findings = fam.findings ++ finding ∷ [];
  metrics =
      Dict.insert "readiness_findings" (one_more (Dict.get "readiness_findings" fam.metrics))
        fam.metrics;
}

-- One finding goes to its family, if that one was measured.
unfoldable pub fold_finding : Finding → Dict FamilyScore → Dict FamilyScore
fold_finding finding [] = []
fold_finding finding ((name, fam) ∷ rest) =
    if str_eq name finding.family
    then (name, if fam.measured then attach_finding finding fam else fam) ∷ rest
    else (name, fam) ∷ fold_finding finding rest

unfoldable pub fold_findings : List Finding → Dict FamilyScore → Dict FamilyScore
fold_findings [] families = families
fold_findings (f ∷ fs) families = fold_findings fs (fold_finding f families)

-- `_fold_readiness`
unfoldable pub fold_readiness : List Adapter → Dict FamilyScore → Dict FamilyScore
fold_readiness [] families = families
fold_readiness (adapter ∷ rest) families =
    fold_readiness rest
      (if adapter.available then fold_findings adapter.scan families else families)
