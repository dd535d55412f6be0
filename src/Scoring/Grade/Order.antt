-- ===== src/Scoring/Grade/Order.antt =====
-- src/mcp_quality/scoring/scorer.py: grades follow scores, and the cap takes the worse grade.
use mcp_probe.Base.Ratio.Laws.{Le-trans}
use mcp_probe.Base.{arith, ◌≡◌, ◌≤◌, refl, ◌⊎◌, ℕ, true, le→leb, leb→le}
use mcp_probe.Base.Ratio
use mcp_probe.Base.Ratio.{Ratio, IsRatio, Le, whole}
use mcp_probe.Scoring.Grade.{
  Grade, a, b, c, d, f, letter, order, order_or_zero, grade_for_score, cap_grade,
}

pub order_or_zero-letter : (g : Grade) → order_or_zero (letter g) ≡ order g
unfolding order_or_zero letter order
order_or_zero-letter a = refl
order_or_zero-letter b = refl
order_or_zero-letter c = refl
order_or_zero-letter d = refl
order_or_zero-letter f = refl

-- A band that a score reaches is reached by every score that is no lower.
reaches_mono :
    (t : ℕ) (x y : Ratio)
    → IsRatio x
    → Le x y
    → Ratio.leb (whole t) x ≡ true
    → Ratio.leb (whole t) y ≡ true
reaches_mono t x y px h k = le→leb _ _ (Le-trans (whole t) x y px (leb→le _ _ k) h)

-- A score that is no lower never gets a worse letter (`order` is 4 for A down to 0 for F), for every
-- first score with a positive denominator.
order-grade_for_score :
    (x y : Ratio) → IsRatio x → Le x y → order (grade_for_score x) ≤ order (grade_for_score y)
unfolding grade_for_score order
order-grade_for_score x y px h = ground (
  arith,
  reaches_mono 90 x y px h,
  reaches_mono 80 x y px h,
  reaches_mono 70 x y px h,
  reaches_mono 60 x y px h,
)

pub order-cap_grade :
    (g cap : Grade)
    → (order (cap_grade g cap) ≤ order g)
      × (order (cap_grade g cap) ≤ order cap)
      × ((cap_grade g cap ≡ g) ⊎ (cap_grade g cap ≡ cap))
unfolding cap_grade
order-cap_grade g cap = ground arith
