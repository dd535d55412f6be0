-- ===== src/Security/Issues.antt =====
-- src/mcp_quality/security/adapters.py: finding the issues in what an external scanner prints. An
-- exception is `none`.
use mcp_probe.Base.Json.{
  items, find_field, of_fields, Fields, Json, null, nil, end, cons, obj, arr, str,
}
use mcp_probe.Connect.Discover.{or_else, get_raw, as_object}
use mcp_probe.Base.{option_or, flat_map, traverse, List, Option, [], ◌∷◌, some, none, ◌>>=◌, String}

-- The objects of a list
abbrev objects : List Json → List Fields
objects [] = []
objects (obj fs ∷ rest) = fs ∷ objects rest
objects (v ∷ rest) = objects rest

-- The first key that holds a list
unfoldable pub first_list : Fields → List String → List Fields
first_list doc [] = []
first_list doc (k ∷ ks) = elim (find_field k doc) [
  | some (arr xs) ↦ objects (items xs)
  | _ ↦ first_list doc ks
]

-- `_ShellAdapter._iter_issues`
unfoldable pub iter_issues : Json → Option (List Fields)
iter_issues (arr xs) = some (objects (items xs))
iter_issues (obj doc) =
    some (first_list doc ("issues" ∷ "findings" ∷ "results" ∷ "vulnerabilities" ∷ []))
iter_issues v = none

-- `for x in d.get(k, [])`, of a list
abbrev each_of : Option Json → Option (List Json)
each_of none = some []
each_of (some (arr xs)) = some (items xs)
each_of (some v) = none

abbrev one_empty : Json
one_empty = arr (cons (obj end) nil)

-- `finding.get("details", [{}]) or [{}]`
abbrev details_of : Option Json → Option (List Json)
details_of none = each_of (some one_empty)
details_of (some v) = each_of (some (or_else v one_empty))

-- `tax.get("category") if isinstance(tax, dict) else None`
abbrev category_of : Option Json → Json
category_of (some (obj tax)) = get_raw "category" tax
category_of _ = null

-- One issue of the flattened list
unfoldable pub cisco_issue : Fields → Fields → Json → Option Fields
cisco_issue result finding detail_value = do
  detail ← as_object detail_value
  some (
      of_fields (
        ("tool", get_raw "name" result)
        ∷ (
          "severity",
          option_or (find_field "severity" finding)
              (option_or (find_field "severity" result) (str "medium")),
        )
        ∷ (
          "title",
          or_else (get_raw "threat_summary" finding)
              (or_else (get_raw "description" detail) (str "issue")),
        )
        ∷ ("id", or_else (get_raw "name" detail) (get_raw "analyzer" finding))
        ∷ ("owasp", category_of (find_field "mcp_taxonomy" detail))
        ∷ []))

unfoldable pub cisco_finding : Fields → Json → Option (List Fields)
cisco_finding result finding_value = do
  finding ← as_object finding_value
  details ← details_of (find_field "details" finding)
  traverse (cisco_issue result finding) details

unfoldable pub cisco_result : Json → Option (List Fields)
cisco_result result_value = do
  result ← as_object result_value
  findings ← each_of (find_field "findings" result)
  issues ← traverse (cisco_finding result) findings
  some (flat_map (λ (is : List Fields). is) issues)

-- `data.get("results", []) if isinstance(data, dict) else []`
abbrev results_of : Json → Option (List Json)
results_of (obj doc) = each_of (find_field "results" doc)
results_of v = some []

-- `issues or super()._iter_issues(data)`
abbrev issues_or : List Fields → Json → Option (List Fields)
issues_or [] doc = iter_issues doc
issues_or (i ∷ is) doc = some (i ∷ is)

-- `CiscoAdapter._iter_issues`
unfoldable pub cisco_issues : Json → Option (List Fields)
cisco_issues doc = do
  results ← results_of doc
  issues ← traverse cisco_result results
  issues_or (flat_map (λ (is : List Fields). is) issues) doc
