-- ===== src/Engines/Cost/Monotone.antt =====
-- src/mcp_quality/engines/cost.py: more tokens never score higher.
use native.Mathlib.Nat.{mul-le-mul_right, mul-sub}
use mcp_probe.Base.{ℕ, Bool-cases, ◌≤◌, arith, leb, inl, false, inr, ◌≡◌, ◌*◌}
use mcp_probe.Base.Ratio
use mcp_probe.Base.Ratio.{Ratio, ratio, whole, Le, IsRatio, monus}
use mcp_probe.Base.Ratio.Laws.{Le-add, Le-mul, Le-refl}
use mcp_probe.Engines.Cost.{penalty_of, cost_score}

monus-antitone : (c a b : Ratio) → Le a b → Le (Ratio.monus c b) (Ratio.monus c a)
monus-antitone c a b h = omega (
  arith,
  mul-sub (c.den * a.den) (c.num * b.den) (b.num * c.den),
  mul-sub (c.den * b.den) (c.num * a.den) (a.num * c.den),
  mul-le-mul_right (c.den * c.den) h,
)

monus-le : (c b : Ratio) → Le (Ratio.monus c b) c
monus-le c b = omega (arith, mul-sub c.den (c.num * b.den) (b.num * c.den))

score-le : (log2 : Ratio → Ratio) (u : ℕ) → Le (cost_score log2 u) (whole 100)
unfolding cost_score
score-le log2 u = elim (Bool-cases (leb u 2000)) [
  | inl small ↦ rw small (Le-refl (whole 100))
  | inr large ↦ rw large (monus-le (whole 100) (penalty_of (log2 (ratio u 2000))))
]

penalty_of_mono : (a b : Ratio) → Le a b → Le (penalty_of a) (penalty_of b)
unfolding penalty_of
penalty_of_mono a b h =
    Le-add _ _ _ _ (Le-mul _ _ a b (Le-refl (ratio 107 10)) h)
      (Le-mul _ _ a b (Le-mul _ _ a b (Le-refl (ratio 9 5)) h) h)

module _ (log2 : Ratio → Ratio)
    (log2_mono : (a b : Ratio)
      → IsRatio a
      → IsRatio b
      → Le (whole 1) a
      → Le a b
      → Le (log2 a) (log2 b)) where
  -- With a logarithm that is monotone from 1 on, more tokens never score higher, and the score is at most 100.
  pub cost_score-antitone :
      (t u : ℕ)
      → t ≤ u
      → Le (cost_score log2 u) (cost_score log2 t) × Le (cost_score log2 t) (whole 100)
  unfolding cost_score
  cost_score-antitone t u h = elim (Bool-cases (leb t 2000)) [
    | inl small ↦ rw small (score-le log2 u, Le-refl (whole 100))
    | inr large ↦
        let beyond : leb u 2000 ≡ false = ground arith in
        rw (large, beyond)
          (
            monus-antitone (whole 100) _ _ (
                penalty_of_mono _ _ (
                  log2_mono (ratio t 2000) (ratio u 2000) (omega arith) (omega arith) (ground arith)
                    (mul-le-mul_right 2000 h))),
            monus-le (whole 100) (penalty_of (log2 (ratio t 2000))),
          )
  ]
