-- ===== src/Contract/Engine/Gate.antt =====
-- src/mcp_quality/engines/contract.py: what a tripped gate does to the score and the grade.
use mcp_probe.Base.{Option, ℕ, ◌≤◌, true, Bool, List, arith, ◌≡◌, some, max, none}
use mcp_probe.Base.Ratio.{Ratio, IsRatio, Le, whole}
use mcp_probe.Base.Ratio.Laws.{mul-pos}
use mcp_probe.Base.Json.{Json}
use mcp_probe.Models.{ServerSurface}
use mcp_probe.Scoring.Grade.{order, order_or_zero, letter, grade_for_score}
use mcp_probe.Scoring.Grade.Order.{order_or_zero-letter}
use mcp_probe.Contract.Schema.{SchemaIssue}
use mcp_probe.Contract.Probe.{Judges}
use mcp_probe.Contract.Loop.{Live}
use mcp_probe.Contract.Engine.{
  LiveServer, base_score, affordance_cost, mean_affordance, open_score, contract_score,
  contract_run,
}

IsRatio-affordance_cost : (mean : Option ℕ) → IsRatio (affordance_cost mean)
unfolding affordance_cost
IsRatio-affordance_cost none = omega arith
IsRatio-affordance_cost (some mean) = ground arith

IsRatio-open_score :
    (tools invalid : ℕ) (live : Live) (unstable : Bool) (compat : ℕ)
    → IsRatio (open_score tools invalid live unstable compat)
unfolding open_score base_score
IsRatio-open_score tools invalid live unstable compat =
    let cost = affordance_cost (mean_affordance live.recovery_scores) in
    omega (
      arith,
      mul-pos (max 1 tools) cost.den (omega arith)
          (IsRatio-affordance_cost (mean_affordance live.recovery_scores)),
    )

-- A score of at most 65 is graded D or F.
order-low : (r : Ratio) → IsRatio r → Le r (whole 65) → order (grade_for_score r) ≤ 1
unfolding order grade_for_score
order-low r fits h = ground arith

gated-low :
    (r : Ratio)
    → IsRatio r
    → IsRatio (contract_score true r) × Le (contract_score true r) (whole 65)
unfolding contract_score
gated-low r fits = ground arith

gated-grade :
    (gate : Bool) (r : Ratio)
    → IsRatio r
    → gate ≡ true
    → order_or_zero (letter (grade_for_score (contract_score gate r))) ≤ 1
gated-grade gate r fits h =
    rw (h, order_or_zero-letter (grade_for_score (contract_score true r)))
      (order-low (contract_score true r) (gated-low r fits).0 (gated-low r fits).1)

-- A contract engine that trips its gate grades its family D or F, on a live server and without one.
pub contract_run-gated :
    (check_schema : Json → List SchemaIssue) (judges : Judges) (allow_writes : Bool)
    (surface : ServerSurface) (server : Option LiveServer)
    → (contract_run check_schema judges allow_writes surface server).hard_gate_tripped ≡ true
    → order_or_zero (contract_run check_schema judges allow_writes surface server).grade ≤ 1
unfolding contract_run
contract_run-gated check_schema judges allow_writes surface server h =
    gated-grade _ _ (IsRatio-open_score _ _ _ _ _) h
