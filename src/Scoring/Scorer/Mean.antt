-- ===== src/Scoring/Scorer/Mean.antt =====
-- src/mcp_quality/scoring/scorer.py: the overall score is a weighted mean.
use native.Mathlib.Nat.{eq_of_mul-eq-mul_left}
use mcp_probe.Base.{
  String, All, option_or, ◌<◌, arith, map, length, ◌∷◌, ◌≡◌, Bool-cases, false, str_eq, inl, inr,
  [], ◌*◌, true, ap, refl, ℕ, All-map, some, filter, All-filter,
}
use mcp_probe.Base.Ratio
use mcp_probe.Base.Ratio.{Ratio, IsRatio, Le, ratio, whole, sum}
use mcp_probe.Base.Ratio.Laws.{
  Le-refl, Le-trans, Le-mul, IsRatio-mul, IsRatio-sum, mul-pos, sum-mul, sum-div, Le-sum, sum-nth,
}
use mcp_probe.Base.Dict
use mathlib.Core.Path.{fun_ext}
use mcp_probe.Base.Dict.{Dict}
use mcp_probe.Models.{FamilyScore}
use mcp_probe.Scoring.Scorer.{
  raw_weight, total_weight, effective, weighted_mean, is_measured, points, score, String, aggregate,
}

-- Every weight of a table has a positive denominator.
abbrev pub WeightsFit : Dict Ratio → Type 0
WeightsFit weights = All (λ (p : String × Ratio). IsRatio p.1) weights

get-IsRatio :
    (k : String) (ws : Dict Ratio) → WeightsFit ws → IsRatio (option_or (Dict.get k ws) (whole 0))
unfolding Dict.get
get-IsRatio k [] h = omega arith
get-IsRatio k ((j, w) ∷ ws) h = elim (Bool-cases (str_eq j k)) [
  | inl same ↦ rw same h.0
  | inr other ↦ rw other (get-IsRatio k ws h.1)
]

module _ (weights : Dict Ratio) (fit : WeightsFit weights) where
  raw_weight-IsRatio : (p : String × FamilyScore) → IsRatio (raw_weight weights p)
  unfolding raw_weight
  raw_weight-IsRatio (name, fam) = get-IsRatio name weights fit

  raw_weights-IsRatio : (l : Dict FamilyScore) → All IsRatio (map (raw_weight weights) l)
  raw_weights-IsRatio [] = tt
  raw_weights-IsRatio (p ∷ l) = (raw_weight-IsRatio p, raw_weights-IsRatio l)

  total_weight-IsRatio : (l : Dict FamilyScore) → IsRatio (total_weight weights l)
  unfolding total_weight
  total_weight-IsRatio l = IsRatio-sum _ (raw_weights-IsRatio l)

  effective-IsRatio :
      (p : String × FamilyScore) (l : Dict FamilyScore)
      → 0 < length l
      → IsRatio (effective weights l p)
  unfolding effective
  effective-IsRatio p l some_family = ground (
    arith,
    mul-pos (raw_weight weights p).den (total_weight weights l).num (raw_weight-IsRatio p),
  )

  raw_total-IsRatio : (l : Dict FamilyScore) → IsRatio (sum (map (raw_weight weights) l))
  raw_total-IsRatio l = IsRatio-sum _ (raw_weights-IsRatio l)

  raw_total-pos :
      (l : Dict FamilyScore)
      → Ratio.leb (total_weight weights l) (whole 0) ≡ false
      → 0 < (sum (map (raw_weight weights) l)).num
  unfolding total_weight
  raw_total-pos l set = ground arith

  -- The two forms of the effective weights.
  equal_weights :
      (l : Dict FamilyScore)
      → Ratio.leb (total_weight weights l) (whole 0) ≡ true
      → effective weights l ≡ (λ p. ratio 1 (length l))
  unfolding effective
  equal_weights l none_set = fun_ext (λ p. rw none_set)

  shares :
      (l : Dict FamilyScore)
      → Ratio.leb (total_weight weights l) (whole 0) ≡ false
      → effective weights l
        ≡ (λ p. Ratio.div (raw_weight weights p) (sum (map (raw_weight weights) l)))
  unfolding effective
  shares l set = fun_ext (λ p. rw set (unfold total_weight in refl))

  sum-shares :
      (l : Dict FamilyScore)
      → Ratio.leb (total_weight weights l) (whole 0) ≡ false
      → (sum (map (effective weights l) l)).num ≡ (sum (map (effective weights l) l)).den
  sum-shares l set =
      let total = sum (map (raw_weight weights) l) in
      rw (shares l set) (
        eq_of_mul-eq-mul_left (total.num * total.den)
          (mul-pos total.num total.den (raw_total-pos l set) (raw_total-IsRatio l)) _ _
          (omega (arith, sum-div total (raw_weight weights) l)))

  sum-effective_eq :
      (l : Dict FamilyScore)
      → 0 < length l
      → (sum (map (effective weights l) l)).num ≡ (sum (map (effective weights l) l)).den
  sum-effective_eq l some_family =
      elim (Bool-cases (Ratio.leb (total_weight weights l) (whole 0))) [
        | inl none_set ↦
            rw (equal_weights l none_set) (
              eq_of_mul-eq-mul_left (length l) some_family _ _
                (omega (arith, sum-nth (length l) l)))
        | inr set ↦ sum-shares l set
      ]

  effective_weights-IsRatio :
      (m : Dict FamilyScore)
      → 0 < length m
      → (l : Dict FamilyScore) → All IsRatio (map (effective weights m) l)
  effective_weights-IsRatio m some_family [] = tt
  effective_weights-IsRatio m some_family (p ∷ l) =
      (effective-IsRatio p m some_family, effective_weights-IsRatio m some_family l)

  -- The effective weights of at least one measured family sum to 1, for a table of weights with
  -- positive denominators: the sum is a fraction whose denominator is positive and equal to its
  -- numerator, also where every weight of the table is 0.
  pub sum-effective :
      (l : Dict FamilyScore)
      → 0 < length l
      → (0 < (sum (map (effective weights l) l)).den)
        × ((sum (map (effective weights l) l)).num ≡ (sum (map (effective weights l) l)).den)
  sum-effective l some_family =
      (IsRatio-sum _ (effective_weights-IsRatio l some_family l), sum-effective_eq l some_family)

  module _ (measured : Dict FamilyScore) (some_family : 0 < length measured) where
    abbrev weight_of : String × FamilyScore → Ratio
    weight_of = effective weights measured

    weights-IsRatio : (l : Dict FamilyScore) → All IsRatio (map weight_of l)
    weights-IsRatio [] = tt
    weights-IsRatio (p ∷ l) = (effective-IsRatio p measured some_family, weights-IsRatio l)

    products-IsRatio :
        (c : Ratio)
        → IsRatio c
        → (l : Dict FamilyScore) → All IsRatio (map (λ p. Ratio.mul c (weight_of p)) l)
    products-IsRatio c fits [] = tt
    products-IsRatio c fits (p ∷ l) = (
      IsRatio-mul c (weight_of p) fits (effective-IsRatio p measured some_family),
      products-IsRatio c fits l,
    )

    -- A constant score has itself as its mean.
    mean-const :
        (c : Ratio)
        → (sum (map (λ p. Ratio.mul c (weight_of p)) measured)).num * c.den
          ≡ c.num * (sum (map (λ p. Ratio.mul c (weight_of p)) measured)).den
    mean-const c =
        let total = sum (map weight_of measured) in
        let mean = sum (map (λ p. Ratio.mul c (weight_of p)) measured) in
        eq_of_mul-eq-mul_left total.den (IsRatio-sum _ (weights-IsRatio measured)) _ _ (
          omega (
            arith,
            sum-mul c weight_of measured,
            ap (λ (t : ℕ). c.num * t * mean.den) (sum-effective_eq measured some_family),
          ))

    weighted_mean-bounds :
        (lo hi : Ratio)
        → IsRatio lo
        → IsRatio hi
        → All (λ p. Le lo (points p) × Le (points p) hi) measured
        → Le lo (weighted_mean weights measured) × Le (weighted_mean weights measured) hi
    unfolding weighted_mean
    weighted_mean-bounds lo hi fits_lo fits_hi h = (
      Le-trans lo (sum (map (λ p. Ratio.mul lo (weight_of p)) measured)) _
          (IsRatio-sum _ (products-IsRatio lo fits_lo measured)) (omega (arith, mean-const lo))
          (Le-sum _ _ measured (
            All-map
              (λ p b. Le-mul lo (points p) (weight_of p) (weight_of p) b.0 (Le-refl (weight_of p)))
              measured h)),
      Le-trans _ (sum (map (λ p. Ratio.mul hi (weight_of p)) measured)) hi
          (IsRatio-sum _ (products-IsRatio hi fits_hi measured))
          (Le-sum _ _ measured (
            All-map
              (λ p b. Le-mul (points p) hi (weight_of p) (weight_of p) b.1 (Le-refl (weight_of p)))
              measured h))
          (omega (arith, mean-const hi)),
    )

module _ (weights : Dict Ratio) (fit : WeightsFit weights) (lo hi r : Ratio) (fits_lo : IsRatio lo)
    (fits_hi : IsRatio hi) where
  over_measured :
      (l : Dict FamilyScore)
      → All (λ p. Le lo (points p) × Le (points p) hi) l
      → (aggregate weights l).overall_score ≡ some r
      → Le lo r × Le r hi
  unfolding aggregate
  over_measured [] h e = absurd (cc)
  over_measured (p ∷ l) h e =
      let same : weighted_mean weights (p ∷ l) ≡ r = cc e in
      rw same at (weighted_mean-bounds weights fit (p ∷ l) (omega arith) lo hi fits_lo fits_hi h)

-- Where the scorer gives an overall score, it lies between any two bounds that hold of every
-- measured family's score, for a weight table and bounds with positive denominators.
pub score_bounds :
    (weights : Dict Ratio)
    → WeightsFit weights
    → (lo hi r : Ratio) → IsRatio lo
    → IsRatio hi
    → (families : Dict FamilyScore)
    → All (λ p. is_measured p ≡ true → Le lo (points p) × Le (points p) hi) families
    → (score weights families).overall_score ≡ some r
    → Le lo r × Le r hi
unfolding score
score_bounds weights fit lo hi r fits_lo fits_hi families h e =
    over_measured weights fit lo hi r fits_lo fits_hi (filter is_measured families)
      (All-map (λ p b. b.1 b.0) _ (All-filter _ is_measured families h)) e
