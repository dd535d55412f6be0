-- ===== src/Pipeline/Run.antt =====
-- src/mcp_quality/pipeline.py: `run_probe`, from the discovered surface to the exit code.
pub mod Unscored
use mcp_probe.Base.{String, List, Option, ℕ, Bool, some, if◌then◌else◌, ltb, none}
use mcp_probe.Base.Dict.{Dict}
use mcp_probe.Base.Json.{Json}
use mcp_probe.Models.{FamilyScore, ServerSurface}
use mcp_probe.Scoring.Scorer.{ScoreResult, default_weights, score}
use mcp_probe.Snapshot.Store.{Baseline, Regression, diff_against_baseline, diff_to_dict}
use mcp_probe.Pipeline.Engines.{Registry, run_engines}
use mcp_probe.Pipeline.Overlay.{Overlay, attach, reliability_overlay}
use mcp_probe.Pipeline.Readiness.{Adapter, fold_readiness}
use mcp_probe.Pipeline.Gates.{ExitCode, GateConfig, decide_exit}

-- The options of `ProbeConfig` that the pipeline itself reads.
pub record RunConfig : Type 0 where
  pub families : List String
  pub seed : ℕ
  pub reliability_k : ℕ
  pub deep_security : Bool
  pub gates : GateConfig

pub record RunOutcome : Type 0 where
  pub result : ScoreResult
  pub families : Dict FamilyScore
  pub reliability : Option Overlay
  pub regression : Option Regression
  pub exit_code : ExitCode

module _ (hash : String → String) (dumps : Json → String) (registry : Registry)
    (adapters : List Adapter) where
  -- `_apply_snapshot`; `none` is a missing snapshot file
  unfoldable pub apply_snapshot :
      Option Baseline → ServerSurface → Dict FamilyScore → Option Regression
  apply_snapshot none surface families = none
  apply_snapshot (some baseline) surface families =
      some (diff_to_dict (diff_against_baseline hash dumps baseline surface families))

  -- The families as the report has them: run, with the overlay's records, with readiness findings.
  unfoldable pub final_families : RunConfig → Bool → Dict FamilyScore
  final_families config static =
      let first = run_engines registry static config.seed config.families in
      let second =
        if ltb 1 config.reliability_k
        then attach registry static config.seed config.reliability_k first
        else first in
      if config.deep_security then fold_readiness adapters second else second

  -- `run_probe`, after the surface is known
  unfoldable pub run_probe : RunConfig → Bool → Option Baseline → ServerSurface → RunOutcome
  run_probe config static baseline surface =
      let first = run_engines registry static config.seed config.families in
      let families = final_families config static in
      let result = score default_weights families in
      let regression = apply_snapshot baseline surface families in
      record {
        result = result;
        families = families;
        reliability =
            if ltb 1 config.reliability_k
            then some (reliability_overlay registry static config.seed config.reliability_k first)
            else none;
        regression = regression;
        exit_code = decide_exit config.gates result.overall_grade families regression;
      }
