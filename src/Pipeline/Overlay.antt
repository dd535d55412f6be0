-- ===== src/Pipeline/Overlay.antt =====
-- src/mcp_quality/pipeline.py: the reliability overlay reruns what is not deterministic.
use mcp_probe.Base.{
  String, ℕ, ◌∷◌, Bool, List, [], if◌then◌else◌, suc, map, ◌+◌, ◌-◌, zero, none, some, true,
}
use mcp_probe.Base.Dict
use mcp_probe.Base.Dict.{Dict, values, last}
use mcp_probe.Base.Ratio
use mcp_probe.Base.Ratio.{Ratio, whole}
use mcp_probe.Base.Json.{ratio_json, Json, nat, obj, of_fields}
use mcp_probe.Models.{FamilyScore}
use mcp_probe.Scoring.Reliability.{Metrics, family_passed, reliability_metrics}
use mcp_probe.Pipeline.Engines.{Registry, run_engine_once}

abbrev metrics_json : Metrics → Json
metrics_json m = obj (
    of_fields (
      ("trials", nat m.trials)
      ∷ ("passes", nat m.passes)
      ∷ ("pass_rate", ratio_json m.pass_rate)
      ∷ ("pass_hat_k", ratio_json m.pass_hat_k)
      ∷ []))

-- `getattr(engine_cls, "deterministic", True) if engine_cls else True`
unfoldable pub is_deterministic : Registry → String → Bool
is_deterministic registry name = elim (registry name) [
  | none ↦ true
  | some engine ↦ engine.deterministic
]

-- `int(family_passed(fs))`
abbrev pub as_count : Bool → ℕ
as_count b = if b then 1 else 0

module _ (registry : Registry) (static : Bool) (seed : ℕ) where
  -- The trials `for i in range(first, first + more)`: how many of them passed.
  unfoldable pub trial_passes : String → ℕ → ℕ → ℕ
  trial_passes name first zero = 0
  trial_passes name first (suc more) =
      as_count (family_passed (run_engine_once registry static name (seed + first)))
      + trial_passes name (suc first) more

  -- The metrics of one measured family; its first run counts as the first trial.
  unfoldable pub family_metrics : ℕ → String → FamilyScore → Metrics
  family_metrics k name fs =
      let passes = as_count (family_passed fs) in
      if is_deterministic registry name
      then reliability_metrics passes 1
      else reliability_metrics (passes + trial_passes name 1 (k - 1)) k

  abbrev pub with_metrics : FamilyScore → Metrics → FamilyScore
  with_metrics fs m = record fs { metrics = Dict.insert "reliability" (metrics_json m) fs.metrics }

  unfoldable pub attach_one : ℕ → String × FamilyScore → String × FamilyScore
  attach_one k (name, fs) =
      (name, if fs.measured then with_metrics fs (family_metrics k name fs) else fs)

  -- The loop over the families: each measured one gets its record.
  unfoldable pub attach : ℕ → Dict FamilyScore → Dict FamilyScore
  unfolding attach_one
  attach k families = map (attach_one k) families

  -- `per_family`
  unfoldable pub per_family : ℕ → Dict FamilyScore → Dict Metrics
  per_family k [] = []
  per_family k ((name, fs) ∷ rest) =
      let others = per_family k rest in
      if fs.measured then (name, family_metrics k name fs) ∷ others else others

-- The product of a figure over the families.
abbrev product : (Metrics → Ratio) → List Metrics → Ratio
product figure [] = whole 1
product figure (m ∷ ms) = Ratio.mul (figure m) (product figure ms)

pub record Overlay : Type 0 where
  pub k : ℕ
  pub overall_pass_rate : Ratio
  pub overall_pass_hat_k : Ratio
  pub per_family_hat : Dict Ratio

-- What `_run_reliability_overlay` returns.
unfoldable pub reliability_overlay : Registry → Bool → ℕ → ℕ → Dict FamilyScore → Overlay
reliability_overlay registry static seed k families =
    let records = per_family registry static seed k families in
    record {
      k = k;
      overall_pass_rate =
          Ratio.round 10000 (product (λ (m : Metrics). m.pass_rate) (values records));
      overall_pass_hat_k =
          Ratio.round 10000 (product (λ (m : Metrics). m.pass_hat_k) (values records));
      per_family_hat = map (λ (p : String × Metrics). (p.0, p.1.pass_hat_k)) records;
    }
