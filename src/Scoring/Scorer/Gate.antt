-- ===== src/Scoring/Scorer/Gate.antt =====
-- src/mcp_quality/scoring/scorer.py: when the hard gate trips, and what it does to the grade.
use mcp_probe.Base.{
  String, is_some, Bool, ◌≡◌, ◌||◌, any, filter, str_eq, arith, ◌∷◌, some, ◌&&◌, is_some-find?, ◌≤◌,
  [], any-or, refl, ◌∙◌, any-filter,
}
use mcp_probe.Base.Ratio
use mcp_probe.Base.Ratio.{Ratio, whole}
use mcp_probe.Base.Dict.{Dict}
use mcp_probe.Models.{FamilyScore}
use mcp_probe.Scoring.Grade.{order, order_or_zero, grade_for_score, hard_gate_cap}
use mcp_probe.Scoring.Grade.Order.{order_or_zero-letter, order-cap_grade}
use mcp_probe.Scoring.Scorer.{
  is_measured, effective, find_hard_gate, gating, final_grade, weighted_mean, score, String,
  is_some, aggregate,
}

-- A family that fails: its gate tripped, or it is graded F.
abbrev pub fails : String × FamilyScore → Bool
fails p = p.1.hard_gate_tripped || str_eq p.1.grade "F"

is_some-find_hard_gate : (l : Dict FamilyScore) → is_some (find_hard_gate l) ≡ any fails l
unfolding find_hard_gate
is_some-find_hard_gate l = ground (
  arith,
  is_some-find? (λ (p : String × FamilyScore). p.1.hard_gate_tripped) l,
  is_some-find? (λ (p : String × FamilyScore). str_eq p.1.grade "F") l,
  any-or (λ (p : String × FamilyScore). p.1.hard_gate_tripped)
      (λ (p : String × FamilyScore). str_eq p.1.grade "F") l,
)

module _ (weights : Dict Ratio) where
  -- The family carries weight among the measured ones.
  abbrev pub has_weight : Dict FamilyScore → String × FamilyScore → Bool
  has_weight families p = Ratio.ltb (whole 0) (effective weights (filter is_measured families) p)

  gate_of :
      (l : Dict FamilyScore)
      → is_some (aggregate weights l).hard_gate ≡ any fails (gating weights l)
  unfolding aggregate gating
  gate_of [] = refl
  gate_of (p ∷ l) = is_some-find_hard_gate (gating weights (p ∷ l))

  -- The scorer reports a hard gate exactly when some measured family with a positive effective
  -- weight tripped its gate or is graded F.
  pub score-gate_iff :
      (families : Dict FamilyScore)
      → is_some (score weights families).hard_gate
        ≡ any (λ p. is_measured p && (has_weight families p && fails p)) families
  unfolding score
  score-gate_iff families =
      gate_of (filter is_measured families)
      ∙ (unfold gating in
          any-filter fails (has_weight families) (filter is_measured families)
          ∙ any-filter (λ p. has_weight families p && fails p) is_measured families)

  grade_of :
      (l : Dict FamilyScore) (r : Ratio) (gate : String)
      → (aggregate weights l).overall_score ≡ some r
      → (aggregate weights l).hard_gate ≡ some gate
      → (order_or_zero (aggregate weights l).overall_grade ≤ 2)
        × (order_or_zero (aggregate weights l).overall_grade ≤ order (grade_for_score r))
  unfolding aggregate final_grade order
  grade_of [] r gate e g = absurd (cc)
  grade_of (p ∷ l) r gate e g =
      let same : weighted_mean weights (p ∷ l) ≡ r = cc e in
      ground (
        arith,
        order_or_zero-letter (final_grade weights (p ∷ l)),
        order-cap_grade (grade_for_score (weighted_mean weights (p ∷ l))) hard_gate_cap,
      )

  -- A hard gate caps the overall grade at C, and never improves on the letter of the score.
  pub score-gate_caps :
      (families : Dict FamilyScore) (r : Ratio) (gate : String)
      → (score weights families).overall_score ≡ some r
      → (score weights families).hard_gate ≡ some gate
      → (order_or_zero (score weights families).overall_grade ≤ 2)
        × (order_or_zero (score weights families).overall_grade ≤ order (grade_for_score r))
  unfolding score
  score-gate_caps families r gate e g = grade_of (filter is_measured families) r gate e g
