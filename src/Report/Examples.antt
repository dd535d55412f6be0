-- ===== src/Report/Examples.antt =====
-- Examples of the verdict.
use mcp_probe.Report.Emitter.Families.{report_to_dict-ordered_families}
use mcp_probe.Report.Emitter.{report_to_dict}
use mcp_probe.Base.Json.{of_fields, obj, find_field, Json}
use mcp_probe.Report.Badge.{grade_colors, badge_color}
use mcp_probe.Base.{◌≡◌, false, some, refl, ◌∷◌, none, []}
use mcp_probe.Base.Dict
use mcp_probe.Base.Dict.{get, Dict, keys}
use mcp_probe.Base.Ratio.{whole}
use mcp_probe.Report.History.{Scores}
use mcp_probe.Base.Sorting.{sort_texts, sort}
use mcp_probe.Models.{not_measured}
use mcp_probe.Models.Samples.{report_of, mixed_families}
use mcp_probe.Report.Rollup.{quality_verdict, ordered_families, blocks, blocker_of}

mixed-failed : (quality_verdict (report_of mixed_families)).passed ≡ false
unfolding quality_verdict ordered_families blocker_of Dict.get blocks not_measured sort_texts sort
mixed-failed = refl

abbrev before : Scores
before = record {
  rubric_version = some "2026.08.1";
  overall_score = some (whole 81);
  overall_grade = some "B";
  families = ("cost", some (whole 80)) ∷ ("performance", none) ∷ [];
}

abbrev after : Scores
after = record before { families = ("cost", some (whole 70)) ∷ ("safety", some (whole 90)) ∷ [] }

shields_of_a : badge_color "A" ≡ "brightgreen"
unfolding badge_color grade_colors get
shields_of_a = refl

report_to_dict-ordered_families_example :
    (out : Dict Json) × (find_field "families"
        (report_to_dict (λ s. s) (λ v. "") false (report_of mixed_families))
      ≡ some (obj (of_fields out)))
    × (keys out ≡ ordered_families mixed_families)
report_to_dict-ordered_families_example =
    report_to_dict-ordered_families (λ s. s) (λ v. "") false (report_of mixed_families)
