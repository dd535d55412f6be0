-- ===== src/Pipeline/Run/Unscored.antt =====
-- src/mcp_quality/pipeline.py: the overlay and the readiness findings never move the score.
use mcp_probe.Base.{Bool, List, String, map, ℕ, ◌≡◌, Option, ◌∷◌, arith, [], ◌∙◌, refl}
use mcp_probe.Base.Dict.{Dict}
use mcp_probe.Base.Json.{Json}
use mcp_probe.Models.{Finding, FamilyScore, ServerSurface}
use mcp_probe.Scoring.Scorer.{default_weights, score}
use mcp_probe.Scoring.Scorer.Core.{core, score-eq_of_core}
use mcp_probe.Snapshot.Store.{Baseline}
use mcp_probe.Pipeline.Engines.{Registry, run_engines}
use mcp_probe.Pipeline.Overlay.{attach}
use mcp_probe.Pipeline.Readiness.{
  Adapter, attach_finding, fold_finding, fold_findings, fold_readiness,
}
use mcp_probe.Pipeline.Run.{RunConfig, final_families, run_probe}

core-attach :
    (registry : Registry) (static : Bool) (seed k : ℕ) (l : Dict FamilyScore)
    → map core (attach registry static seed k l) ≡ map core l
unfolding attach
core-attach registry static seed k [] = refl
core-attach registry static seed k ((name, fs) ∷ l) =
    ground (arith, core-attach registry static seed k l)

core-fold_finding : (f : Finding) (l : Dict FamilyScore) → map core (fold_finding f l) ≡ map core l
unfolding fold_finding attach_finding
core-fold_finding f [] = refl
core-fold_finding f ((name, fam) ∷ l) = ground (arith, core-fold_finding f l)

core-fold_findings :
    (fs : List Finding) (l : Dict FamilyScore) → map core (fold_findings fs l) ≡ map core l
unfolding fold_findings
core-fold_findings [] l = refl
core-fold_findings (f ∷ fs) l = core-fold_findings fs (fold_finding f l) ∙ core-fold_finding f l

core-fold_readiness :
    (adapters : List Adapter) (l : Dict FamilyScore)
    → map core (fold_readiness adapters l) ≡ map core l
unfolding fold_readiness
core-fold_readiness [] l = refl
core-fold_readiness (a ∷ rest) l =
    core-fold_readiness rest _ ∙ ground (arith, core-fold_findings a.scan l)

module _ (hash : String → String) (dumps : Json → String) (registry : Registry)
    (adapters : List Adapter) where
  core-final_families :
      (config : RunConfig) (static : Bool)
      → map core (final_families hash dumps registry adapters config static)
        ≡ map core (run_engines registry static config.seed config.families)
  unfolding final_families
  core-final_families config static =
      let first = run_engines registry static config.seed config.families in
      let k = config.reliability_k in
      ground (
        arith,
        core-attach registry static config.seed k first,
        core-fold_readiness adapters first,
        core-fold_readiness adapters (attach registry static config.seed k first),
      )

  -- The score, grade, gate and weights of a run are those of the engines' first results: the
  -- reliability overlay and the readiness findings do not move them.
  pub run_probe-score :
      (config : RunConfig) (static : Bool) (baseline : Option Baseline) (surface : ServerSurface)
      → (run_probe hash dumps registry adapters config static baseline surface).result
        ≡ score default_weights (run_engines registry static config.seed config.families)
  unfolding run_probe
  run_probe-score config static baseline surface =
      score-eq_of_core default_weights _ _ (core-final_families config static)
