-- ===== src/Legibility/Engine.antt =====
-- src/mcp_quality/engines/legibility.py: the score, the findings and the metrics.
use mcp_probe.Base.{
  String, List, ℕ, Bool, Option, ◌>>=◌, ◌∷◌, min, show_nat, some, [], ◌++◌, if◌then◌else◌, map,
  none, true, false, ◌+◌, ◌<>◌, take, length,
}
use mcp_probe.Base.Ratio
use mcp_probe.Base.Ratio.{Ratio, ratio, whole}
use mcp_probe.Base.Dict.{Dict}
use mcp_probe.Base.Json.{
  Json, null, bool, nat, str, obj, strs, of_fields, of_items, arr, ratio_json,
}
use mcp_probe.Base.Regex.{Wide}
use mcp_probe.Models.{
  Finding, FamilyScore, Severity, info, low, medium, high, critical, ServerSurface,
}
use mcp_probe.Scoring.Grade.{letter, grade_for_score}
use mcp_probe.Legibility.Consensus.{Consensus, Divergence}
use mcp_probe.Legibility.Lints.{lint_descriptions, lint_tool_overload, overload_band}
use mcp_probe.Legibility.Similarity.{Pair, confusable_shortlist}
use mcp_probe.Legibility.Probe.{Provider, Probe, Confusion, Rewrite}

-- `_LINT_PENALTY`
unfoldable pub lint_cost : Severity → ℕ
lint_cost info = 0
lint_cost low = 2
lint_cost medium = 5
lint_cost high = 10
lint_cost critical = 15

abbrev sum_costs : List Finding → ℕ
sum_costs [] = 0
sum_costs (f ∷ fs) = lint_cost f.severity + sum_costs fs

-- `lint_penalty`
unfoldable pub lint_penalty : List Finding → ℕ
lint_penalty lints = min 30 (sum_costs lints)

-- The score of a probe; the last subtraction stops at 0, as `clamp` does
unfoldable pub legibility_score : Probe → ℕ → Ratio
legibility_score p penalty =
    Ratio.monus
      (Ratio.mul
        (Ratio.mul (Ratio.mul p.selection_rate (Ratio.monus (whole 1) p.mean_confusion))
          (Ratio.monus (whole 1) p.false_fire_rate))
        (whole 100))
      (whole penalty)

-- `f"{rate:.0%}"`
abbrev percent : Ratio → String
percent r = show_nat (Ratio.round_units 100 r) <> "%"

abbrev finding :
    String → Severity → Option String → String → String → Option (List (String × Json)) → Finding
finding code severity tool message remediation evidence = record {
  family = "legibility";
  code = code;
  severity = severity;
  message = message;
  tool = tool;
  remediation = some remediation;
  owasp_id = none;
  source = "builtin";
  evidence = elim evidence [ none ↦ none | some ps ↦ some (of_fields ps) ];
}

abbrev confusion_findings : Option Confusion → List Finding
confusion_findings none = []
confusion_findings (some c) =
    finding "L2-confusion" high (some c.golden)
      ("agents chose '"
        <> c.chosen
        <> "' when '"
        <> c.golden
        <> "' was correct "
        <> percent c.rate
        <> " of the time")
      "disambiguate the two descriptions (see proposed rewrite)"
      (some (("pair", strs (c.golden ∷ c.chosen ∷ [])) ∷ ("rate", ratio_json c.rate) ∷ []))
    ∷ []

abbrev rewrite_finding : Rewrite → Finding
rewrite_finding r =
    finding "L5-rewrite" low (some r.tool)
      ("'" <> r.tool <> "' is hard to select; a clearer description would help")
      ("proposed: " <> r.rewrite) (some (("old", str r.old) ∷ ("rewrite", str r.rewrite) ∷ []))

-- `_findings_from_probe`
unfoldable pub findings_from_probe : Probe → List Finding
findings_from_probe p = confusion_findings p.top_confusion ++ map rewrite_finding p.rewrites

-- The finding of over-triggering
unfoldable pub trigger_findings : Ratio → List Finding
trigger_findings rate =
    if Ratio.ltb (whole 0) rate
    then finding "L6-over-triggering" medium none
        ("tools fired on "
          <> percent rate
          <> " of out-of-scope prompts "
          <> "(should have declined) — a spurious-call risk")
        "tighten descriptions so tools don't look applicable to unrelated requests"
        (some (("false_fire_rate", ratio_json (Ratio.round 1000 rate)) ∷ []))
      ∷ []
    else []

abbrev counts_json : Dict ℕ → Json
counts_json d = obj (of_fields (map (λ (e : String × ℕ). (e.0, nat e.1)) d))

abbrev divergence_json : Divergence → Json
divergence_json d = obj (
    of_fields (
      ("goal", str d.goal)
      ∷ ("golden", str d.golden)
      ∷ ("picks", counts_json d.picks)
      ∷ ("agreement", ratio_json d.agreement)
      ∷ []))

-- The report of the panel, with `canonical`
abbrev pub consensus_json : Consensus → Bool → Json
consensus_json c canonical = obj (
    of_fields (
      ("models", strs c.models)
      ∷ ("goals_compared", nat c.goals_compared)
      ∷ ("mean_agreement", ratio_json c.mean_agreement)
      ∷ ("disagreement_rate", ratio_json c.disagreement_rate)
      ∷ ("divergent_goals", arr (of_items (map divergence_json c.divergent_goals)))
      ∷ ("canonical", bool canonical)
      ∷ []))

abbrev worst_finding : ℕ → Consensus → List Divergence → List Finding
worst_finding size c [] = []
worst_finding size c (worst ∷ others) =
    finding "L7-model-disagreement" medium none
      (show_nat size
        <> " models disagreed on tool choice for "
        <> percent c.disagreement_rate
        <> " of goals (mean agreement "
        <> percent c.mean_agreement
        <> ") — a genuine-ambiguity signal")
      "disambiguate the descriptions for the divergent goals below"
      (some (
        ("worst_goal", str worst.goal)
        ∷ ("picks", counts_json worst.picks)
        ∷ ("models", strs c.models)
        ∷ []))
    ∷ []

-- The finding of a material disagreement
unfoldable pub disagreement_findings : ℕ → Consensus → List Finding
disagreement_findings size c =
    if Ratio.leb (ratio 1 4) c.disagreement_rate then worst_finding size c c.divergent_goals else []

abbrev pair_json : Pair → Json
pair_json p = arr (of_items (str p.first ∷ str p.second ∷ ratio_json p.similarity ∷ []))

abbrev or_null {ℓ} : {A : Type ℓ} → (A → Json) → Option A → Json
or_null f none = null
or_null f (some a) = f a

abbrev confusion_json : Confusion → Json
confusion_json c = arr (of_items (str c.golden ∷ str c.chosen ∷ ratio_json c.rate ∷ []))

-- The metrics that a run without a model has
unfoldable pub lint_metrics : ServerSurface → Dict Json
lint_metrics surface =
    ("selection_rate", null)
    ∷ ("behavioural", str "not measured (no model configured)")
    ∷ (
      "lexical_confusable_pairs",
      arr (of_items (map pair_json (take 5 (confusable_shortlist surface)))),
    )
    ∷ ("tool_count", nat (length surface.tools))
    ∷ ("overload_band", str (overload_band (length surface.tools)))
    ∷ []

-- The metrics of a probe
unfoldable pub probe_metrics :
    {M : Type 0} → Provider M → String → ServerSurface → Probe → Bool → Dict Json
probe_metrics model gsv surface p hit =
    ("selection_rate", ratio_json (Ratio.round 1000 p.selection_rate))
    ∷ ("selection_accuracy", ratio_json (Ratio.round 1000 p.selection_rate))
    ∷ ("false_fire_rate", ratio_json (Ratio.round 1000 p.false_fire_rate))
    ∷ ("top_confusion", or_null confusion_json p.top_confusion)
    ∷ ("mean_confusion", ratio_json (Ratio.round 1000 p.mean_confusion))
    ∷ ("model", str model.model_id)
    ∷ ("seed", nat model.seed)
    ∷ ("goal_set_version", str gsv)
    ∷ ("canonical", bool model.is_canonical)
    ∷ ("cache_hit", bool hit)
    ∷ ("tool_count", nat (length surface.tools))
    ∷ ("overload_band", str (overload_band (length surface.tools)))
    ∷ (
      "lexical_confusable_pairs",
      arr (of_items (map pair_json (take 5 (confusable_shortlist surface)))),
    )
    ∷ (
      "matrix",
      or_null (λ m. obj (of_fields (map (λ (e : String × Dict ℕ). (e.0, counts_json e.1)) m)))
          p.matrix,
    )
    ∷ ("tool_order", or_null strs p.tool_order)
    ∷ ("per_tool_total", or_null counts_json p.per_tool_total)
    ∷ []

abbrev pub family : Ratio → List Finding → Dict Json → FamilyScore
family score findings metrics = record {
  family = "legibility";
  score = some score;
  grade = letter (grade_for_score score);
  hard_gate_tripped = false;
  findings = findings;
  metrics = metrics;
  measured = true;
}

-- `panel[0] if panel else None`, behind the configured model
unfoldable pub primary :
    {M : Type 0} → Option (Provider M) → List (Provider M) → Option (Provider M)
primary (some model) panel = some model
primary none [] = none
primary none (model ∷ panel) = some model

-- The lints of the surface, with the band of its size
unfoldable pub all_lints : Wide → ServerSurface → Option (List Finding)
all_lints wide surface = do
  lints ← lint_descriptions wide surface
  some (elim (lint_tool_overload surface) [ none ↦ lints | some f ↦ lints ++ f ∷ [] ])
