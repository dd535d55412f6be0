-- ===== src/Scoring/Scorer/Unmeasured.antt =====
-- src/mcp_quality/scoring/scorer.py: unmeasured families are left out, never counted as zero.
use mcp_probe.Base.{
  arith, ◌⊎◌, none, String, ◌≡◌, false, ◌++◌, ◌∷◌, ap, filter-append, ◌∙◌, sym, refl,
}
use mcp_probe.Base.Dict.{Dict}
use mcp_probe.Base.Ratio.{Ratio}
use mcp_probe.Models.{FamilyScore, not_measured}
use mcp_probe.Scoring.Scorer.{is_measured, aggregate, score, String}

is_measured-unmeasured :
    (name : String) (fam : FamilyScore)
    → (fam.measured ≡ false) ⊎ (fam.score ≡ none)
    → is_measured (name, fam) ≡ false
unfolding is_measured
is_measured-unmeasured name fam h = ground arith

-- A family that is marked as not measured, or has no score, changes nothing in the result, wherever
-- it stands among the families and whatever weight, gate and grade it has: the overall score, the
-- grade, the gate and the weights of the others are those of a run without it.
pub score-not_measured :
    (weights : Dict Ratio) (before after : Dict FamilyScore) (name : String) (fam : FamilyScore)
    → (fam.measured ≡ false) ⊎ (fam.score ≡ none)
    → score weights (before ++ ((name, fam) ∷ after)) ≡ score weights (before ++ after)
unfolding score
score-not_measured weights before after name fam e = ap (aggregate weights) (
    filter-append is_measured before ((name, fam) ∷ after)
    ∙ (rw (is_measured-unmeasured name fam e) (sym (filter-append is_measured before after))))

-- What `FamilyScore.not_measured` makes is such a family.
pub is_measured-not_measured :
    (name family reason : String) → is_measured (name, not_measured family reason) ≡ false
unfolding is_measured not_measured
is_measured-not_measured name family reason = refl
