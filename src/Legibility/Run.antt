-- ===== src/Legibility/Run.antt =====
-- src/mcp_quality/engines/legibility.py: `run`, with one model, a panel or none.
use mcp_probe.Base.{
  String, List, ℕ, Option, ◌∷◌, map, ◌++◌, some, [], none, length, if◌then◌else◌, any, ltb,
}
use mcp_probe.Base.Ratio
use mcp_probe.Base.Ratio.{Ratio, whole}
use mcp_probe.Base.Regex.{Wide}
use mcp_probe.Models.{Finding, FamilyScore, ServerSurface}
use mcp_probe.Legibility.Consensus.{Consensus, consensus_report}
use mcp_probe.Legibility.Probe.{Provider, Probe, build_goals}
use mcp_probe.Legibility.Cache.{World, run_or_cache, panel_picks}
use mcp_probe.Legibility.Engine.{
  all_lints, lint_penalty, legibility_score, findings_from_probe, trigger_findings, lint_metrics,
  probe_metrics, disagreement_findings, consensus_json, family, primary,
}

-- The texts' Unicode, the digest, and the readers and writers of the cache's files
pub record Outside : Type 0 where
  pub wide : Wide
  pub lower : ℕ → List ℕ
  pub of_codes : List ℕ → String
  pub digest : String → String
  pub write_probe : Probe → String
  pub read_probe : String → Option Probe
  pub write_picks : List String → String
  pub read_picks : String → Option (List String)

-- `build_goals(ctx.surface)`
abbrev pub goals_for : Outside → ServerSurface → List (String × String)
goals_for outside surface = build_goals outside.wide outside.lower outside.of_codes surface.tools

module _ {M : Type 0} (outside : Outside) where
  -- `[self._panel_picks(ctx, m) for m in panel]`
  unfoldable pub picks_of_panel :
      List (Provider M) → ServerSurface → String → World M → List (List String) × World M
  picks_of_panel [] surface gsv w = ([], w)
  picks_of_panel (model ∷ panel) surface gsv w =
      let one =
        panel_picks model outside.digest outside.write_picks outside.read_picks
          (goals_for outside surface) surface gsv w in
      let rest = picks_of_panel panel surface gsv one.1 in (one.0 ∷ rest.0, rest.1)

  -- `_run_consensus`; an IndexError is `none`
  unfoldable pub run_consensus :
      List (Provider M) → ServerSurface → String → World M → Option Consensus × World M
  run_consensus panel surface gsv w =
      let picks = picks_of_panel panel surface gsv w in
      (
        consensus_report (map (λ (m : Provider M). m.model_id) panel) picks.0
            (goals_for outside surface),
        picks.1,
      )

  -- The family's record with the consensus of a panel
  abbrev pub with_consensus : List (Provider M) → FamilyScore → Consensus → FamilyScore
  with_consensus panel f c = record f {
    findings = f.findings ++ disagreement_findings (length panel) c;
    metrics =
        f.metrics
        ++ ("consensus", consensus_json c (any (λ (m : Provider M). m.is_canonical) panel)) ∷ [];
  }

  abbrev after_consensus :
      List (Provider M) → FamilyScore → Option Consensus × World M → Option FamilyScore × World M
  after_consensus panel f (none, w) = (none, w)
  after_consensus panel f (some c, w) = (some (with_consensus panel f c), w)

  -- The run with a model
  unfoldable pub run_measured :
      Provider M
      → List (Provider M)
      → List Finding
      → ServerSurface
      → String
      → World M
      → Option FamilyScore × World M
  run_measured model panel lints surface gsv w =
      let run =
        run_or_cache model outside.digest outside.write_probe outside.read_probe
          (goals_for outside surface) surface gsv w in
      let p = run.0.0 in
      let f =
        family (legibility_score p (lint_penalty lints))
          (lints ++ findings_from_probe p ++ trigger_findings p.false_fire_rate)
          (probe_metrics model gsv surface p run.0.1) in
      if ltb 1 (length panel)
      then after_consensus panel f (run_consensus panel surface gsv run.1)
      else (some f, run.1)

  abbrev run_with :
      Option (Provider M)
      → List (Provider M)
      → List Finding
      → ServerSurface
      → String
      → World M
      → Option FamilyScore × World M
  run_with none panel lints surface gsv w = (
    some (
        family (Ratio.monus (whole 100) (whole (lint_penalty lints))) lints (lint_metrics surface)),
    w,
  )
  run_with (some model) panel lints surface gsv w = run_measured model panel lints surface gsv w

  abbrev after_lints :
      Option (Provider M)
      → List (Provider M)
      → Option (List Finding)
      → ServerSurface
      → String
      → World M
      → Option FamilyScore × World M
  after_lints model panel none surface gsv w = (none, w)
  after_lints model panel (some lints) surface gsv w =
      run_with (primary model panel) panel lints surface gsv w

  -- `LegibilityEngine.run`; `none` is an exception
  unfoldable pub run_legibility :
      Option (Provider M)
      → List (Provider M)
      → ServerSurface
      → String
      → World M
      → Option FamilyScore × World M
  run_legibility model panel surface gsv w =
      after_lints model panel (all_lints outside.wide surface) surface gsv w
