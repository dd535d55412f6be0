-- ===== src/Scoring/Reliability/Projection.antt =====
-- src/mcp_quality/scoring/reliability.py: pass^k is 1 exactly when every trial passed.
use native.Mathlib.Nat.{one-le-mul, mul-le-mul, mul-le-mul_left, mul-lt-mul_of_pos_left}
use mcp_probe.Base.{ℕ, ◌<◌, ◌≤◌, ◌≡◌, arith, suc, ◌↔◌, zero, refl, ◌*◌}
use mcp_probe.Base.Ratio
use mcp_probe.Base.Ratio.{Ratio, ratio, Le}
use mcp_probe.Scoring.Reliability.{pass_hat_k, ℕ}

pow-pos : (r : Ratio) (n : ℕ) → 0 < r.den → 0 < (Ratio.pow r n).den
pow-pos r zero h = omega arith
pow-pos r (suc n) h = one-le-mul h (pow-pos r n h)

mul_lt : (a b c d : ℕ) → a < b → c < d → a * c < b * d
mul_lt a b c d h k =
    let c_le_d : c ≤ d = omega arith in
    omega (arith, mul-le-mul_left a c_le_d, mul-lt-mul_of_pos_left {k = d} h (omega arith))

-- A power of a fraction below 1 stays below 1.
pow-lt : (r : Ratio) (n : ℕ) → r.num < r.den → (Ratio.pow r (suc n)).num < (Ratio.pow r (suc n)).den
pow-lt r zero h = omega arith
pow-lt r (suc n) h = mul_lt _ _ _ _ h (pow-lt r n h)

pow-le : (r : Ratio) (n : ℕ) → r.num ≤ r.den → (Ratio.pow r n).num ≤ (Ratio.pow r n).den
pow-le r zero h = omega arith
pow-le r (suc n) h = mul-le-mul h (pow-le r n h)

pow-one : (r : Ratio) (n : ℕ) → r.num ≡ r.den → (Ratio.pow r n).num ≡ (Ratio.pow r n).den
pow-one r zero h = refl
pow-one r (suc n) h = cc (h, pow-one r n h)

-- Over at least one trial, with no more passes than trials, pass^k is 1 exactly when every trial
-- passed.
pass_hat_k-one_iff :
    (passes trials : ℕ)
    → 0 < trials
    → passes ≤ trials
    → ((pass_hat_k passes trials).num ≡ (pass_hat_k passes trials).den) ↔ (passes ≡ trials)
unfolding pass_hat_k
pass_hat_k-one_iff passes zero h k = elim h [ ]
pass_hat_k-one_iff passes (suc t) h k = (
  (λ e. ground (arith, pow-lt (ratio passes (suc t)) t)),
  (λ e. ground (arith, pow-one (ratio passes (suc t)) (suc t) e)),
)

pass_hat_k-suc :
    (passes t : ℕ) → pass_hat_k passes (suc t) ≡ Ratio.pow (ratio passes (suc t)) (suc t)
unfolding pass_hat_k
pass_hat_k-suc passes t = ground arith

-- Over at least one trial, with no more passes than trials, pass^k never exceeds the pass rate.
pass_hat_k-le-rate :
    (passes trials : ℕ)
    → 0 < trials
    → passes ≤ trials
    → Le (pass_hat_k passes trials) (ratio passes trials)
pass_hat_k-le-rate passes zero h k = elim h [ ]
pass_hat_k-le-rate passes (suc t) h k =
    rw (pass_hat_k-suc passes t)
      (omega (arith, mul-le-mul_left (passes * suc t) (pow-le (ratio passes (suc t)) t k)))
