-- ===== src/Security/Examples.antt =====
-- Examples of the reconciliation of findings.
use mcp_probe.Base.Regex.{Wide, is_blank, strip_blank}
use mcp_probe.Security.Scanners.{severity_of, normalize_issue}
use mcp_probe.Security.Issues.{cisco_issues, cisco_result, cisco_finding, cisco_issue}
use mcp_probe.Base.Json.{obj, arr, cons, nil, str, nat, null, of_fields}
use mcp_probe.Base.{false, refl, any, some, ◌∷◌, [], ◌≡◌}
use mcp_probe.Models.{medium, info, Finding}
use mcp_probe.Models.Samples.{broken_finding}
use mcp_probe.Security.Dedup.{dedup_findings}
use mcp_probe.Security.Dedup.Covers.{is_on, dedup_findings-covers}

-- A finding of the program's own and one of a scanner on the same id and tool.
abbrev own : Finding
own = record broken_finding { family = "security"; owasp_id = some "MCP05:2025" }

abbrev theirs : Finding
theirs = record own { code = "cisco-shell"; source = "cisco" }

dedup_findings-covers_example :
    any
      (is_on (some "MCP05:2025") (some "search"))
      (dedup_findings (own ∷ theirs ∷ broken_finding ∷ []))
    ≡ any (is_on (some "MCP05:2025") (some "search")) (own ∷ theirs ∷ broken_finding ∷ [])
dedup_findings-covers_example =
    dedup_findings-covers (some "MCP05:2025") (some "search") (own ∷ theirs ∷ broken_finding ∷ [])

abbrev ascii : Wide
ascii = record { word = λ c. false; space = λ c. false; digit = λ c. false }

-- A numeric severity of 0 is read as if there were none, though on its own it is the lowest.
zero_severity :
    (normalize_issue ascii (λ v. "") "cisco" (of_fields (("severity", nat 0) ∷ []))).severity
    ≡ medium
unfolding normalize_issue severity_of strip_blank is_blank
zero_severity = refl

zero_alone : severity_of ascii (λ v. "") (nat 0) ≡ info
unfolding severity_of
zero_alone = refl

-- The nested form of the scanner gives one issue for each detail.
nested_issues :
    cisco_issues (
      obj (
        of_fields (
          (
            "results",
            arr (
                cons
                  (obj (
                    of_fields (
                      ("name", str "search")
                      ∷ (
                        "findings",
                        arr (cons (obj (of_fields (("severity", str "high") ∷ []))) nil),
                      )
                      ∷ [])))
                  nil),
          )
          ∷ [])))
    ≡ some (
        of_fields (
          ("tool", str "search")
          ∷ ("severity", str "high")
          ∷ ("title", str "issue")
          ∷ ("id", null)
          ∷ ("owasp", null)
          ∷ [])
        ∷ [])
unfolding cisco_issues cisco_result cisco_finding cisco_issue
nested_issues = refl
