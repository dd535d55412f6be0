-- ===== src/Engines/Penalty.antt =====
-- src/mcp_quality/engines/base.py: the penalty score of the engines that start from 100.
use mcp_probe.Base.{ℕ, List, ◌∷◌, ◌-◌, ◌++◌, ◌+◌, ◌≡◌, ◌≤◌, arith, []}
use mcp_probe.Models.{Severity, info, low, medium, high, critical, Finding}

-- `_SEVERITY_PENALTY`
unfoldable pub penalty : Severity → ℕ
penalty info = 0
penalty low = 3
penalty medium = 8
penalty high = 20
penalty critical = 40

unfoldable pub deduction : List Finding → ℕ
unfolding penalty
deduction [] = 0
deduction (f ∷ fs) = penalty f.severity + deduction fs

-- `penalty_score` with its base of 100; the subtraction stops at 0, as `clamp` does
unfoldable pub penalty_score : List Finding → ℕ
unfolding deduction
penalty_score findings = 100 - deduction findings

deduction-append : (fs gs : List Finding) → deduction (fs ++ gs) ≡ deduction fs + deduction gs
unfolding deduction
deduction-append [] gs = omega arith
deduction-append (f ∷ fs) gs = omega (arith, deduction-append fs gs)

-- Further findings never raise the penalty score, and it is at most 100.
penalty_score-append :
    (fs gs : List Finding)
    → (penalty_score (fs ++ gs) ≤ penalty_score fs) × (penalty_score fs ≤ 100)
unfolding penalty_score
penalty_score-append fs gs = (omega (arith, deduction-append fs gs), omega arith)
