-- ===== src/Scoring/Scorer/Core.antt =====
-- src/mcp_quality/scoring/scorer.py: the score reads neither the findings nor the metrics.
use mcp_probe.Base.{
  String, map, [], Bool, ◌≡◌, ◌∷◌, filter, length-map, ap, sym, arith, ◌∙◌, refl, Option, find?,
  str_eq, some, none,
}
use mathlib.Core.Path.{ap, sym}
use mcp_probe.Base.Ratio
use mcp_probe.Base.Ratio.{Ratio, whole, sum}
use mcp_probe.Base.Dict.{Dict}
use mcp_probe.Models.{FamilyScore}
use mcp_probe.Scoring.Scorer.{
  is_measured, points, raw_weight, total_weight, effective, weighted_mean, find_hard_gate, gating,
  final_grade, score_measured, aggregate, score, String, map,
}

-- A family without its findings and metrics.
abbrev pub core : String × FamilyScore → String × FamilyScore
core (name, fam) = (name, record fam { findings = []; metrics = [] })

map-core {ℓ} :
    {A : Type ℓ} (f g : String × FamilyScore → A)
    → ((p : String × FamilyScore) → f (core p) ≡ g p)
    → (l : Dict FamilyScore) → map f (map core l) ≡ map g l
map-core f g h [] = refl
map-core f g h (p ∷ l) = cc (h p, map-core f g h l)

filter-core :
    (f g : String × FamilyScore → Bool)
    → ((p : String × FamilyScore) → f (core p) ≡ g p)
    → (l : Dict FamilyScore) → filter f (map core l) ≡ map core (filter g l)
filter-core f g h [] = refl
filter-core f g h (p ∷ l) = ground (arith, h p, filter-core f g h l)

abbrev named : Option (String × FamilyScore) → Option String
named none = none
named (some p) = some p.0

named-find?-core :
    (f : String × FamilyScore → Bool)
    → ((p : String × FamilyScore) → f (core p) ≡ f p)
    → (l : Dict FamilyScore) → named (find? f (map core l)) ≡ named (find? f l)
named-find?-core f h [] = refl
named-find?-core f h (p ∷ l) = ground (arith, h p, named-find?-core f h l)

find_hard_gate-core : (l : Dict FamilyScore) → find_hard_gate (map core l) ≡ find_hard_gate l
unfolding find_hard_gate
find_hard_gate-core l = ground (
  arith,
  named-find?-core (λ (p : String × FamilyScore). p.1.hard_gate_tripped) (λ p. refl) l,
  named-find?-core (λ (p : String × FamilyScore). str_eq p.1.grade "F") (λ p. refl) l,
)

module _ (weights : Dict Ratio) where
  total_weight-core :
      (l : Dict FamilyScore) → total_weight weights (map core l) ≡ total_weight weights l
  unfolding total_weight raw_weight
  total_weight-core l = ap sum (map-core _ _ (λ p. refl) l)

  effective-core :
      (l : Dict FamilyScore) (p : String × FamilyScore)
      → effective weights (map core l) (core p) ≡ effective weights l p
  unfolding effective raw_weight
  effective-core l p = simp (total_weight-core, length-map)

  weighted_mean-core :
      (l : Dict FamilyScore) → weighted_mean weights (map core l) ≡ weighted_mean weights l
  unfolding weighted_mean points
  weighted_mean-core l =
      ap sum (map-core _ _ (λ p. ap (Ratio.mul (points p)) (effective-core l p)) l)

  gating-core : (l : Dict FamilyScore) → gating weights (map core l) ≡ map core (gating weights l)
  unfolding gating
  gating-core l = filter-core _ _ (λ p. ap (Ratio.ltb (whole 0)) (effective-core l p)) l

  gate-core :
      (l : Dict FamilyScore)
      → find_hard_gate (gating weights (map core l)) ≡ find_hard_gate (gating weights l)
  gate-core l = rw gating-core (find_hard_gate-core (gating weights l))

  named_weight : Dict FamilyScore → String × FamilyScore → String × Ratio
  named_weight l p = (p.0, effective weights l p)

  weights_same :
      (l : Dict FamilyScore) → map (named_weight (map core l)) (map core l) ≡ map (named_weight l) l
  unfolding named_weight
  weights_same l = map-core _ _ (λ p. λ i. ((core p).0, effective-core l p i)) l

  score_measured-core :
      (l : Dict FamilyScore) → score_measured weights (map core l) ≡ score_measured weights l
  unfolding score_measured final_grade named_weight
  score_measured-core l = cc (weighted_mean-core l, gate-core l, weights_same l)

  aggregate-core : (l : Dict FamilyScore) → aggregate weights (map core l) ≡ aggregate weights l
  unfolding aggregate
  aggregate-core [] = refl
  aggregate-core (p ∷ l) = score_measured-core (p ∷ l)

  score-core : (l : Dict FamilyScore) → score weights (map core l) ≡ score weights l
  unfolding score is_measured
  score-core l =
      ap (aggregate weights) (filter-core is_measured is_measured (λ p. refl) l)
      ∙ aggregate-core (filter is_measured l)

  -- Families that agree but for findings and metrics have the same result.
  pub score-eq_of_core :
      (l m : Dict FamilyScore) → map core l ≡ map core m → score weights l ≡ score weights m
  score-eq_of_core l m e = sym (score-core l) ∙ ap (score weights) e ∙ score-core m
