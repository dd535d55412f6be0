-- ===== src/Pipeline/Examples.antt =====
-- Examples of a run: its engines, its score and its exit code.
use mcp_probe.Base.{◌≡◌, some, false, [], none, true, ◌∷◌, ◌↔◌, refl, ◌&&◌, elem, ◌⊎◌}
use mcp_probe.Base.Dict
use mcp_probe.Models.Samples.{good_families, one_tool}
use mcp_probe.Scoring.Grade.{order_or_zero}
use mcp_probe.Scoring.Scorer.{score, default_weights}
use mcp_probe.Pipeline.Engines.{Engine, done, live_families, run_engine_once, run_engines}
use mcp_probe.Pipeline.Engines.Degrade.{run_engine_once-measured}
use mcp_probe.Pipeline.Gates.{
  ok, gate_failure, below_floor, family_below, regression_blocks, decide_exit,
}
use mcp_probe.Pipeline.Gates.Spec.{decide_exit-gate_failure_iff, BelowFloor, FamilyBelow, Regresses}
use mcp_probe.Pipeline.Run.{run_probe}
use mcp_probe.Pipeline.Run.Unscored.{run_probe-score}
use mcp_probe.Pipeline.Samples.{registry, floors, options}

run_engine_once-measured_example :
    (engine : Engine) × (registry "cost" ≡ some engine)
    × ((true && (elem "cost" live_families && engine.requires_live)) ≡ false)
    × (engine.run 7 ≡ done (run_engine_once registry true "cost" 7))
unfolding run_engine_once
run_engine_once-measured_example = run_engine_once-measured registry true "cost" 7 refl

run_probe-score_example :
    (run_probe (λ s. s) (λ j. "") registry [] options true none one_tool).result
    ≡ score default_weights (run_engines registry true 7 ("cost" ∷ "contract" ∷ []))
run_probe-score_example = run_probe-score (λ s. s) (λ j. "") registry [] options true none one_tool

decide_exit-gate_failure_iff_example :
    ((decide_exit floors "A" good_families none ≡ gate_failure)
      ↔ (BelowFloor floors "A" ⊎ (FamilyBelow floors good_families ⊎ Regresses floors none)))
    × ((decide_exit floors "A" good_families none ≡ ok)
        ⊎ (decide_exit floors "A" good_families none ≡ gate_failure))
decide_exit-gate_failure_iff_example = decide_exit-gate_failure_iff floors "A" good_families none

good-exit : decide_exit floors "A" good_families none ≡ ok
unfolding decide_exit below_floor family_below regression_blocks Dict.get order_or_zero
good-exit = refl
