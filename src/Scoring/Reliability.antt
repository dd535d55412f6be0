-- ===== src/Scoring/Reliability.antt =====
-- src/mcp_quality/scoring/reliability.py: the pass^k overlay.
pub mod Projection
use mcp_probe.Base.{ℕ, List, Bool, String, ◌&&◌, if◌then◌else◌, ◌∷◌, elem, ◌==◌, []}
use mcp_probe.Base.Ratio
use mcp_probe.Base.Ratio.{Ratio, ratio, whole}
use mcp_probe.Models.{FamilyScore, tool}

-- `PASS_GRADES`
abbrev pub pass_grades : List String
pass_grades = "A" ∷ "B" ∷ "C" ∷ "D" ∷ []

-- `family_passed`
unfoldable pub family_passed : FamilyScore → Bool
family_passed fs = fs.measured && elem fs.grade pass_grades

-- `pass_hat_k`; the counts of the program are never negative
unfoldable pub pass_hat_k : ℕ → ℕ → Ratio
pass_hat_k passes trials = if trials == 0 then whole 0 else Ratio.pow (ratio passes trials) trials

pub record Metrics : Type 0 where
  pub trials : ℕ
  pub passes : ℕ
  pub pass_rate : Ratio
  pub pass_hat_k : Ratio

-- `reliability_metrics`
unfoldable pub reliability_metrics : ℕ → ℕ → Metrics
unfolding pass_hat_k
reliability_metrics passes trials =
    let rate = if trials == 0 then whole 0 else ratio passes trials in
    record {
      trials = trials;
      passes = passes;
      pass_rate = Ratio.round 10000 rate;
      pass_hat_k = Ratio.round 10000 (pass_hat_k passes trials);
    }
