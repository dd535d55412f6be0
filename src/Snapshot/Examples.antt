-- ===== src/Snapshot/Examples.antt =====
-- Examples of the diff against a baseline.
use mcp_probe.Base.{◌≡◌}
use mcp_probe.Models.Samples.{mixed_families, good_families, one_tool}
use mcp_probe.Pipeline.Gates.{regressed}
use mcp_probe.Snapshot.Store.{
  Baseline, build_snapshot, diff_against_baseline, diff_to_dict, has_regression,
}
use mcp_probe.Snapshot.Store.Rounding.{regressed-diff_to_dict}

abbrev baseline : Baseline
baseline = build_snapshot (λ s. s) (λ j. "") one_tool good_families

regressed-diff_to_dict_example :
    regressed
      (diff_to_dict (diff_against_baseline (λ s. s) (λ j. "") baseline one_tool mixed_families))
    ≡ has_regression (diff_against_baseline (λ s. s) (λ j. "") baseline one_tool mixed_families)
regressed-diff_to_dict_example =
    regressed-diff_to_dict (λ s. s) (λ j. "") baseline one_tool mixed_families
