-- ===== src/Scoring/Examples.antt =====
-- Examples of the scorer and of the reliability figures.
use mcp_probe.Scoring.Scorer.Unmeasured.{score-not_measured}
use mcp_probe.Base.{
  ◌<◌, ◌++◌, ◌∷◌, inl, [], refl, is_some, ◌≡◌, arith, any, some, ◌&&◌, ◌≤◌, map, filter,
}
use mcp_probe.Base.Dict
use mcp_probe.Base.Ratio.{Ratio, Le, whole, sum}
use mcp_probe.Models.{not_measured}
use mcp_probe.Models.Samples.{mixed_families, good_families}
use mcp_probe.Scoring.Grade.{order, grade_for_score, order_or_zero}
use mcp_probe.Scoring.Scorer.{
  score, default_weights, effective, is_measured, weighted_mean, aggregate, points, gating,
  total_weight, raw_weight, find_hard_gate,
}
use mcp_probe.Scoring.Scorer.Mean.{WeightsFit, sum-effective, score_bounds}
use mcp_probe.Scoring.Scorer.Gate.{has_weight, fails, score-gate_iff, score-gate_caps}
use mcp_probe.Scoring.Scorer.Core.{core, score-eq_of_core}

score-gate_iff_example :
    is_some (score default_weights mixed_families).hard_gate
    ≡ any
        (λ p. is_measured p && (has_weight default_weights mixed_families p && fails p))
        mixed_families
score-gate_iff_example = score-gate_iff default_weights mixed_families

abbrev mixed_score : Ratio
mixed_score = weighted_mean default_weights (filter is_measured mixed_families)

mixed-overall_score : (score default_weights mixed_families).overall_score ≡ some mixed_score
unfolding score aggregate is_measured not_measured
mixed-overall_score = refl

mixed-hard_gate : (score default_weights mixed_families).hard_gate ≡ some "contract"
unfolding score aggregate is_measured not_measured gating effective total_weight raw_weight Dict.get
    find_hard_gate
mixed-hard_gate = refl

score-gate_caps_example :
    (order_or_zero (score default_weights mixed_families).overall_grade ≤ 2)
    × (order_or_zero (score default_weights mixed_families).overall_grade
        ≤ order (grade_for_score mixed_score))
score-gate_caps_example =
    score-gate_caps default_weights mixed_families mixed_score "contract" mixed-overall_score
      mixed-hard_gate

default_weights-WeightsFit : WeightsFit default_weights
default_weights-WeightsFit =
    (omega arith, (omega arith, (omega arith, (omega arith, (omega arith, (omega arith, tt))))))

sum-effective_example :
    (0 < (sum (map (effective default_weights good_families) good_families)).den)
    × ((sum (map (effective default_weights good_families) good_families)).num
        ≡ (sum (map (effective default_weights good_families) good_families)).den)
sum-effective_example =
    sum-effective default_weights default_weights-WeightsFit good_families (omega arith)

score_bounds_example : Le (whole 80) mixed_score × Le mixed_score (whole 95)
unfolding points is_measured not_measured
score_bounds_example =
    score_bounds default_weights default_weights-WeightsFit (whole 80) (whole 95) mixed_score
      (omega arith) (omega arith) mixed_families
      (
        (λ _. (omega arith, omega arith)),
        ((λ _. (omega arith, omega arith)), ((λ e. absurd (cc)), tt)),
      )
      mixed-overall_score

score-eq_of_core_example :
    score default_weights mixed_families ≡ score default_weights (map core mixed_families)
score-eq_of_core_example =
    score-eq_of_core default_weights mixed_families (map core mixed_families) refl

score-not_measured_example :
    score default_weights (good_families ++ (("safety", not_measured "safety" "no client") ∷ []))
    ≡ score default_weights (good_families ++ [])
unfolding not_measured
score-not_measured_example =
    score-not_measured default_weights good_families [] "safety" (not_measured "safety" "no client")
      (inl refl)
