-- ===== src/Report/Rollup/Meaning.antt =====
-- src/mcp_quality/report/rollup.py: what the verdict means.
use mcp_probe.Base.{
  String, ◌≡◌, elem, true, some, not, false, List, filter, ◌++◌, arith, elem-filter, any-append,
  str_eq, is_some, ◌∙◌, any, sym, is_empty-filter_map, Option-cases, ap, inl, inr, any_witness,
}
use mcp_probe.Base.Dict
use mcp_probe.Base.Dict.{Dict, keys, has_key, is_some-get}
use mcp_probe.Base.Sorting.{elem-sort_texts, sort_texts}
use mcp_probe.Models.{FamilyScore, Report}
use mcp_probe.Report.Rollup.{
  ordered_families, all_families, blocks, blocker_of, is_caveat, quality_verdict, String,
}

-- Canonical names first, then the others: filtered to the keys, this lists each key and no more.
elem-canonical :
    (name : String) (canonical present : List String)
    → elem name (
        filter
          (λ n. elem n present)
          (canonical ++ sort_texts (filter (λ n. not (elem n canonical)) present)))
      ≡ elem name present
elem-canonical name canonical present =
    let extra = filter (λ n. not (elem n canonical)) present in
    ground (
      arith,
      elem-filter name (λ n. elem n present) (canonical ++ sort_texts extra),
      any-append (str_eq name) canonical (sort_texts extra),
      elem-sort_texts name extra,
      elem-filter name (λ n. not (elem n canonical)) present,
    )

-- The canonical order lists each family of the report, and no other name.
pub elem-ordered_families :
    (name : String) (families : Dict FamilyScore)
    → elem name (ordered_families families) ≡ has_key name families
unfolding ordered_families
elem-ordered_families name families = elem-canonical name all_families (keys families)

is_some-blocker_of :
    (families : Dict FamilyScore) (name : String) (fam : FamilyScore)
    → Dict.get name families ≡ some fam
    → is_some (blocker_of families name) ≡ blocks fam
unfolding blocker_of
is_some-blocker_of families name fam e = ground arith

elem-ordered_of_get :
    (families : Dict FamilyScore) (name : String) (fam : FamilyScore)
    → Dict.get name families ≡ some fam
    → elem name (ordered_families families) ≡ true
elem-ordered_of_get families name fam e =
    elem-ordered_families name families ∙ sym (is_some-get name families) ∙ ap is_some e

passed-eq :
    (report : Report)
    → (quality_verdict report).passed
      ≡ not (any (λ n. is_some (blocker_of report.families n)) (ordered_families report.families))
unfolding quality_verdict
passed-eq report =
    is_empty-filter_map (blocker_of report.families) (ordered_families report.families)

-- If the verdict fails, some measured family of the report has tripped its gate or is graded F.
quality_verdict-failed :
    (report : Report)
    → (quality_verdict report).passed ≡ false
    → (name : String) × (fam : FamilyScore) × (Dict.get name report.families ≡ some fam)
      × (blocks fam ≡ true)
quality_verdict-failed report failed =
    let (name, hit) =
      any_witness (λ n. is_some (blocker_of report.families n)) (ordered_families report.families)
        (ground (arith, passed-eq report)) in
    elim (Option-cases (Dict.get name report.families)) [
      | inl missing ↦ absurd (unfold blocker_of in ground arith)
      | inr (fam, e) ↦ (name, fam, e, sym (is_some-blocker_of report.families name fam e) ∙ hit)
    ]

-- A family of the report is listed as a caveat exactly when it was not measured.
pub quality_verdict-caveat_iff :
    (report : Report) (name : String) (fam : FamilyScore)
    → Dict.get name report.families ≡ some fam
    → elem name (quality_verdict report).caveats ≡ not fam.measured
unfolding quality_verdict is_caveat
quality_verdict-caveat_iff report name fam e = ground (
  arith,
  elem-filter name (is_caveat report.families) (ordered_families report.families),
  elem-ordered_of_get report.families name fam e,
)
