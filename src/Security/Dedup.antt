-- ===== src/Security/Dedup.antt =====
-- src/mcp_quality/security/adapters.py: findings of several sources are reconciled.
pub mod Covers
use mcp_probe.Base.{
  String, List, ℕ, Bool, Option, some, filter, if◌then◌else◌, str_eq, ◌∷◌, ◌++◌, ltb, any, [], none,
  true, false, not, ◌&&◌, ◌||◌, elem, flat_map, ◌==◌,
}
use mcp_probe.Base.Ratio
use mcp_probe.Base.Ratio.{ratio, whole}
use mcp_probe.Base.Json.{Json, Fields, bool, int, float, find_field}
use mcp_probe.Models.{Finding, value}

-- `conf is not None and isinstance(conf, (int, float)) and conf < min_confidence`
abbrev pub is_unsure : Option Json → Bool
is_unsure (some (bool b)) = not b
is_unsure (some (int negative n)) = negative || (n == 0)
is_unsure (some (float x)) = x.negative || Ratio.ltb x.size (ratio 2 5)
is_unsure _ = false

abbrev confidence_of : Option Fields → Option Json
confidence_of none = none
confidence_of (some e) = find_field "confidence" e

-- `suppress_false_positives`
unfoldable pub suppress_false_positives : List Finding → List Finding
suppress_false_positives findings =
    filter (λ (f : Finding). not (is_unsure (confidence_of f.evidence))) findings

-- `fidelity.get(f.source, 0)`
unfoldable pub fidelity : String → ℕ
fidelity source =
    if str_eq source "mcp-xray"
    then 1
    else if str_eq source "cisco"
    then 2
    else if str_eq source "mcp-scan"
    then 3
    else 0

-- `a.tool == b.tool`
abbrev pub same_tool : Option String → Option String → Bool
same_tool none none = true
same_tool (some a) (some b) = str_eq a b
same_tool _ _ = false

-- A group: the key `(f.owasp_id, f.tool)` and the findings with it, in their order
pub record Group : Type 0 where
  pub owasp : String
  pub tool : Option String
  pub first : Finding
  pub others : List Finding

abbrev pub has_group_key : String → Option String → Group → Bool
has_group_key owasp tool g = str_eq g.owasp owasp && same_tool g.tool tool

-- `groups.setdefault((f.owasp_id, f.tool), []).append(f)`
unfoldable pub add_to_groups : String → Finding → List Group → List Group
add_to_groups owasp f [] = record { owasp = owasp; tool = f.tool; first = f; others = [] } ∷ []
add_to_groups owasp f (g ∷ gs) =
    let rest = add_to_groups owasp f gs in
    if has_group_key owasp f.tool g then record g { others = g.others ++ f ∷ [] } ∷ gs else g ∷ rest

-- The loop over the findings; one without an id is passed through
abbrev pub put : Option String → Finding → List Group × List Finding → List Group × List Finding
put none f state = (state.0, state.1 ++ f ∷ [])
put (some owasp) f state = (add_to_groups owasp f state.0, state.1)

unfoldable pub group_findings : List Finding → List Group × List Finding → List Group × List Finding
group_findings [] state = state
group_findings (f ∷ fs) state = group_findings fs (put f.owasp_id f state)

-- `(f.severity, fidelity.get(f.source, 0))`, `a` below `b`
unfoldable pub is_below : Finding → Finding → Bool
is_below a b =
    ltb (value a.severity) (value b.severity)
    || ((value a.severity == value b.severity) && ltb (fidelity a.source) (fidelity b.source))

-- `max(group, key=...)`: the first of the highest
unfoldable pub best_of : Finding → List Finding → Finding
best_of f [] = f
best_of f (g ∷ gs) =
    let next = best_of g gs in let same = best_of f gs in if is_below f g then next else same

-- `len({f.source for f in group}) > 1`
unfoldable pub is_cross_source : Finding → List Finding → Bool
is_cross_source f others = any (λ (g : Finding). not (str_eq g.source f.source)) others

-- `seen.setdefault(f.code, f)` over the group, `seen.values()`
unfoldable pub distinct_codes : List String → List Finding → List Finding
distinct_codes seen [] = []
distinct_codes seen (f ∷ fs) =
    let skipped = distinct_codes seen fs in
    let kept = distinct_codes (f.code ∷ seen) fs in if elem f.code seen then skipped else f ∷ kept

-- What remains of a group
unfoldable pub reconcile : Group → List Finding
reconcile g =
    if is_cross_source g.first g.others
    then best_of g.first g.others ∷ []
    else distinct_codes [] (g.first ∷ g.others)

-- `dedup_findings`
unfoldable pub dedup_findings : List Finding → List Finding
dedup_findings findings =
    let grouped = group_findings findings ([], []) in flat_map reconcile grouped.0 ++ grouped.1
