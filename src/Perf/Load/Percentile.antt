-- ===== src/Perf/Load/Percentile.antt =====
-- src/mcp_quality/perf/load.py: a percentile lies between the samples.
use native.Mathlib.Nat.{mul-le-mul_right}
use mcp_probe.Base.{
  ℕ, List, ◌≤◌, ◌+◌, All, length, ◌≡◌, suc, arith, ◌<◌, ◌∷◌, ap, ◌∙◌, [], ◌*◌, ◌-◌, min, zero, refl,
}
use mcp_probe.Base.Ratio
use mcp_probe.Base.Ratio.{Ratio, IsRatio, Le, ratio, whole}
use mcp_probe.Base.Ratio.Laws.{Le-refl, Le-trans, Le-add, Le-mul, IsRatio-mul, IsRatio-add}
use mcp_probe.Base.Sorting.{All-sort, sort, insert_sorted}
use mcp_probe.Perf.Load.{percentile, interpolate, sample_at, low_rank, rest_rank}

length-insert_sorted :
    (x : Ratio) (ys : List Ratio) → length (insert_sorted Ratio.leb x ys) ≡ suc (length ys)
unfolding insert_sorted
length-insert_sorted x [] = refl
length-insert_sorted x (y ∷ ys) = ground (arith, length-insert_sorted x ys)

length-sort : (xs : List Ratio) → length (sort Ratio.leb xs) ≡ length xs
unfolding sort
length-sort [] = refl
length-sort (x ∷ xs) = length-insert_sorted x (sort Ratio.leb xs) ∙ ap suc (length-sort xs)

All-sample_at :
    (P : Ratio → Type 0) (xs : List Ratio) (i : ℕ) → All P xs → i < length xs → P (sample_at xs i)
All-sample_at P [] i h lt = elim lt [ ]
All-sample_at P (x ∷ xs) zero h lt = h.0
All-sample_at P (x ∷ xs) (suc i) h lt = All-sample_at P xs i h.1 (omega arith)

-- A sample between two bounds, with its own denominator positive.
abbrev pub Within : Ratio → Ratio → Ratio → Type 0
Within lo hi x = IsRatio x × Le lo x × Le x hi

-- A fraction is its own mean under two weights that sum to 1.
same_mean-le :
    (a : Ratio) (u v : ℕ)
    → u + v ≡ 100
    → Le a (Ratio.add (Ratio.mul a (ratio u 100)) (Ratio.mul a (ratio v 100)))
same_mean-le a u v e = omega (arith, ap (λ (t : ℕ). a.num * a.den * a.den * 100 * t) e)

le-same_mean :
    (a : Ratio) (u v : ℕ)
    → u + v ≡ 100
    → Le (Ratio.add (Ratio.mul a (ratio u 100)) (Ratio.mul a (ratio v 100))) a
le-same_mean a u v e = omega (arith, ap (λ (t : ℕ). a.num * a.den * a.den * 100 * t) e)

-- Two weights that sum to 1 keep a mean within the bounds.
mean_between :
    (lo hi a b : Ratio) (u v : ℕ)
    → u + v ≡ 100
    → IsRatio lo
    → IsRatio hi
    → Within lo hi a
    → Within lo hi b
    → Le lo (Ratio.add (Ratio.mul a (ratio u 100)) (Ratio.mul b (ratio v 100)))
      × Le (Ratio.add (Ratio.mul a (ratio u 100)) (Ratio.mul b (ratio v 100))) hi
mean_between lo hi a b u v e fits_lo fits_hi ha hb = (
  Le-trans lo (Ratio.add (Ratio.mul lo (ratio u 100)) (Ratio.mul lo (ratio v 100))) _
      (IsRatio-add (Ratio.mul lo (ratio u 100)) (Ratio.mul lo (ratio v 100))
        (IsRatio-mul lo (ratio u 100) fits_lo (omega arith))
        (IsRatio-mul lo (ratio v 100) fits_lo (omega arith)))
      (same_mean-le lo u v e)
      (Le-add (Ratio.mul lo (ratio u 100)) (Ratio.mul a (ratio u 100)) (Ratio.mul lo (ratio v 100))
        (Ratio.mul b (ratio v 100))
        (Le-mul lo a (ratio u 100) (ratio u 100) ha.1 (Le-refl (ratio u 100)))
        (Le-mul lo b (ratio v 100) (ratio v 100) hb.1 (Le-refl (ratio v 100)))),
  Le-trans _ (Ratio.add (Ratio.mul hi (ratio u 100)) (Ratio.mul hi (ratio v 100))) hi
      (IsRatio-add (Ratio.mul hi (ratio u 100)) (Ratio.mul hi (ratio v 100))
        (IsRatio-mul hi (ratio u 100) fits_hi (omega arith))
        (IsRatio-mul hi (ratio v 100) fits_hi (omega arith)))
      (Le-add (Ratio.mul a (ratio u 100)) (Ratio.mul hi (ratio u 100)) (Ratio.mul b (ratio v 100))
        (Ratio.mul hi (ratio v 100))
        (Le-mul a hi (ratio u 100) (ratio u 100) ha.2 (Le-refl (ratio u 100)))
        (Le-mul b hi (ratio v 100) (ratio v 100) hb.2 (Le-refl (ratio v 100))))
      (le-same_mean hi u v e),
)

-- The lower neighbour of a rank is a position of the list, and the rest is less than a step.
low_rank-lt : (p n : ℕ) → p ≤ 100 → low_rank p (suc n) < suc n
low_rank-lt p n h =
    let pred : suc n - 1 ≡ n = omega arith in
    omega (arith, mul-le-mul_right n h, ap (λ (t : ℕ). p * t) pred)

rest_rank-le : (p n : ℕ) → rest_rank p n ≤ 100
rest_rank-le p n = omega arith

interpolate-between :
    (lo hi : Ratio) (xs : List Ratio) (p : ℕ)
    → p ≤ 100
    → 0 < length xs
    → IsRatio lo
    → IsRatio hi
    → All (Within lo hi) xs
    → Le lo (interpolate xs p) × Le (interpolate xs p) hi
unfolding interpolate
interpolate-between lo hi [] p small filled fits_lo fits_hi h = elim filled [ ]
interpolate-between lo hi (x ∷ xs) p small filled fits_lo fits_hi h =
    let n = length xs in
    let rest = rest_rank p (suc n) in
    let bound : low_rank p (suc n) < suc n = low_rank-lt p n small in
    mean_between lo hi _ _ (100 - rest) rest (omega (arith, rest_rank-le p (suc n))) fits_lo fits_hi
      (All-sample_at (Within lo hi) (x ∷ xs) (low_rank p (suc n)) h bound)
      (All-sample_at (Within lo hi) (x ∷ xs) (min (low_rank p (suc n) + 1) (suc n - 1)) h
        (omega arith))

-- A percentile of at least one sample, at a rank of at most 100, lies between any two bounds that
-- hold of every sample, for samples and bounds with positive denominators.
percentile-between :
    (lo hi : Ratio) (xs : List Ratio) (p : ℕ)
    → p ≤ 100
    → 0 < length xs
    → IsRatio lo
    → IsRatio hi
    → All (Within lo hi) xs
    → Le lo (percentile xs p) × Le (percentile xs p) hi
unfolding percentile
percentile-between lo hi [] p small filled fits_lo fits_hi h = elim filled [ ]
percentile-between lo hi (x ∷ []) p small filled fits_lo fits_hi h = (h.0.1, h.0.2)
percentile-between lo hi (x ∷ y ∷ xs) p small filled fits_lo fits_hi h =
    interpolate-between lo hi (sort Ratio.leb (x ∷ y ∷ xs)) p small
      (omega (arith, length-sort (x ∷ y ∷ xs))) fits_lo fits_hi
      (All-sort Ratio.leb (Within lo hi) (x ∷ y ∷ xs) h)
