-- ===== src/Scoring/Scorer.antt =====
-- src/mcp_quality/scoring/scorer.py: `class Scorer`.
use mcp_probe.Base.{
  String, ◌∷◌, Option, Bool, option_or, map, if◌then◌else◌, filter, some, [], ◌&&◌, find?, length,
  is_some, is_empty, str_eq, none,
}
pub mod Mean
pub mod Gate
pub mod Core
pub mod Unmeasured
use mcp_probe.Base.Ratio
use mcp_probe.Base.Ratio.{Ratio, ratio, whole, sum}
use mcp_probe.Base.Dict
use mcp_probe.Base.Dict.{Dict, values}
use mcp_probe.Models.{FamilyScore, not_measured_grade}
use mcp_probe.Scoring.Grade.{Grade, letter, grade_for_score, cap_grade, hard_gate_cap}

-- `DEFAULT_WEIGHTS`
abbrev pub default_weights : Dict Ratio
default_weights =
    ("cost", ratio 30 100)
    ∷ ("legibility", ratio 25 100)
    ∷ ("contract", ratio 20 100)
    ∷ ("performance", ratio 15 100)
    ∷ ("security", ratio 10 100)
    ∷ ("safety", ratio 10 100)
    ∷ []

pub record ScoreResult : Type 0 where
  pub overall_score : Option Ratio
  pub overall_grade : String
  pub hard_gate : Option String
  pub effective_weights : Dict Ratio

-- `fam.measured and fam.score is not None`
unfoldable pub is_measured : String × FamilyScore → Bool
is_measured (name, fam) = fam.measured && is_some fam.score

-- `measured[name].score or 0.0`
unfoldable pub points : String × FamilyScore → Ratio
points (name, fam) = option_or fam.score (whole 0)

-- `Scorer._find_hard_gate`: the explicit trips first, then the families at F
unfoldable pub find_hard_gate : Dict FamilyScore → Option String
find_hard_gate families =
    elim (find? (λ (p : String × FamilyScore). p.1.hard_gate_tripped) families) [
      | some (name, fam) ↦ some name
      | none ↦ elim (find? (λ (p : String × FamilyScore). str_eq p.1.grade "F") families) [
        | some (name, fam) ↦ some name
        | none ↦ none
      ]
    ]

-- The result when nothing was measured.
abbrev pub no_score : ScoreResult
no_score = record {
  overall_score = none;
  overall_grade = not_measured_grade;
  hard_gate = none;
  effective_weights = [];
}

module _ (weights : Dict Ratio) where
  -- `raw[name]`
  unfoldable pub raw_weight : String × FamilyScore → Ratio
  raw_weight (name, fam) = option_or (Dict.get name weights) (whole 0)

  -- `total_w`
  unfoldable pub total_weight : Dict FamilyScore → Ratio
  total_weight measured = sum (map raw_weight measured)

  -- `effective[name]`, over the measured families
  unfoldable pub effective : Dict FamilyScore → String × FamilyScore → Ratio
  effective measured p =
      if Ratio.leb (total_weight measured) (whole 0)
      then ratio 1 (length measured)
      else Ratio.div (raw_weight p) (total_weight measured)

  -- `overall`
  unfoldable pub weighted_mean : Dict FamilyScore → Ratio
  weighted_mean measured = sum (map (λ p. Ratio.mul (points p) (effective measured p)) measured)

  -- `gating`: only a family that carries weight can gate
  unfoldable pub gating : Dict FamilyScore → Dict FamilyScore
  gating measured = filter (λ p. Ratio.ltb (whole 0) (effective measured p)) measured

  unfoldable pub final_grade : Dict FamilyScore → Grade
  final_grade measured =
      let grade = grade_for_score (weighted_mean measured) in
      if is_some (find_hard_gate (gating measured)) then cap_grade grade hard_gate_cap else grade

  -- The scores of the measured families, aggregated.
  unfoldable pub score_measured : Dict FamilyScore → ScoreResult
  score_measured measured = record {
    overall_score = some (weighted_mean measured);
    overall_grade = letter (final_grade measured);
    hard_gate = find_hard_gate (gating measured);
    effective_weights = map (λ p. (p.0, effective measured p)) measured;
  }

  unfoldable pub aggregate : Dict FamilyScore → ScoreResult
  unfolding score_measured
  aggregate measured = if is_empty measured then no_score else score_measured measured

  -- `Scorer.score`
  unfoldable pub score : Dict FamilyScore → ScoreResult
  score families = aggregate (filter is_measured families)
