-- ===== src/Engines/Cost/Run.antt =====
-- src/mcp_quality/engines/cost.py: `CostEngine.run`.
use mcp_probe.Base.{
  String, List, ℕ, Bool, Option, some, [], true, map, length, ◌++◌, ◌∷◌, none, false, ◌+◌, max,
  if◌then◌else◌, is_empty, ◌==◌, ◌&&◌, ◌<>◌,
}
use mcp_probe.Base.Ratio
use mcp_probe.Base.Ratio.{Ratio, ratio, whole}
use mcp_probe.Base.Dict.{Dict}
use mcp_probe.Base.Json.{Json, null, nat, str, obj, of_fields, ratio_json}
use mcp_probe.Models.{Finding, FamilyScore, ServerSurface, ToolDef}
use mcp_probe.Scoring.Grade.{letter, grade_for_score}
use mcp_probe.Contract.Results.{Answer}
use mcp_probe.Engines.Tokens.{TokenCounter, serialize_toolset}
use mcp_probe.Engines.Cost.{
  cost_score, leave_one_out, rescale, by_weight, bloat_findings, remediation_findings,
  resolve_price_points, usd_by_point,
}
use mcp_probe.Engines.Cost.Sampling.{Sampled, sample_responses}

-- The options that the engine reads; `authoritative` is the model's name and the count of the
-- provider, where they were asked for and came
pub record CostConfig : Type 0 where
  pub authoritative : Option (String × ℕ)
  pub response_bloat : Bool
  pub price_points : List String

abbrev cost_family : Ratio → List Finding → Dict Json → FamilyScore
cost_family score findings metrics = record {
  family = "cost";
  score = some score;
  grade = letter (grade_for_score score);
  hard_gate_tripped = false;
  findings = findings;
  metrics = metrics;
  measured = true;
}

-- The result for a surface without tools
unfoldable pub empty_cost : TokenCounter → FamilyScore
empty_cost counter =
    record (cost_family (whole 100) []
      (("toolset_tokens", nat 0) ∷ ("counter", str counter.name) ∷ ("tools", nat 0) ∷ [])) {
        grade = "A";
      }

-- The headline count, the weights to it, and the counter's name
pub record Weights : Type 0 where
  pub tokens : ℕ
  pub per_tool : Dict ℕ
  pub counter_name : String
  pub estimated : Bool

unfoldable pub weights_of : Option (String × ℕ) → TokenCounter → ℕ → Dict ℕ → Weights
weights_of none counter offline per_tool = record {
  tokens = offline;
  per_tool = per_tool;
  counter_name = counter.name;
  estimated = true;
}
weights_of (some (model, count)) counter offline per_tool = record {
  tokens = count;
  per_tool = if offline == 0 then per_tool else rescale count offline per_tool;
  counter_name = "anthropic:count_tokens/" <> model;
  estimated = false;
}

abbrev counts_json : Dict ℕ → Json
counts_json d = obj (of_fields (map (λ (e : String × ℕ). (e.0, nat e.1)) d))

abbrev prices_json : Dict Ratio → Json
prices_json d = obj (of_fields (map (λ (e : String × Ratio). (e.0, ratio_json e.1)) d))

-- `usd_by_point[next(iter(price_points))]`; there is a price point
abbrev headline : Dict Ratio → Json
headline [] = null
headline ((label, usd) ∷ d) = ratio_json usd

-- The answers' weights, "not measured" where none were sampled
abbrev responses_json : Option (Dict ℕ) → Json
responses_json none = str "not measured"
responses_json (some d) = counts_json d

abbrev sum_of : Dict ℕ → ℕ
sum_of [] = 0
sum_of ((k, n) ∷ d) = n + sum_of d

abbrev max_of : Dict ℕ → ℕ
max_of [] = 0
max_of ((k, n) ∷ d) = max n (max_of d)

-- `round(sum(response_tokens.values()) / len(response_tokens))`
abbrev mean_response : Dict ℕ → ℕ
mean_response d = Ratio.round_units 1 (ratio (sum_of d) (length d))

-- `context_efficiency`
unfoldable pub context_efficiency : ℕ → Option (Dict ℕ) → Dict Json
context_efficiency tokens (some (r ∷ rs)) =
    ("schema_tokens", nat tokens)
    ∷ (
      "response_tokens",
      obj (
          of_fields (
            ("mean", nat (mean_response (r ∷ rs)))
            ∷ ("max", nat (max_of (r ∷ rs)))
            ∷ ("sampled_tools", nat (length (r ∷ rs)))
            ∷ [])),
    )
    ∷ ("context_footprint", nat (tokens + mean_response (r ∷ rs)))
    ∷ []
context_efficiency tokens _ =
    ("schema_tokens", nat tokens)
    ∷ ("response_tokens", str "not measured")
    ∷ ("context_footprint", nat tokens)
    ∷ []

-- `estimate_note`
abbrev note_json : Bool → Json
note_json true = str "estimate (OpenAI tokenizer; undercounts Claude ~15-20%)"
note_json false = null

unfoldable pub cost_metrics : Weights → Dict Ratio → ℕ → Option (Dict ℕ) → Dict Json
cost_metrics w usd tools responses =
    ("toolset_tokens", nat w.tokens)
    ∷ ("per_tool_tokens", counts_json (by_weight w.per_tool))
    ∷ ("usd_per_task", headline usd)
    ∷ ("usd_by_price_point", prices_json usd)
    ∷ ("counter", str w.counter_name)
    ∷ ("counter_note", note_json w.estimated)
    ∷ ("tools", nat tools)
    ∷ ("response_tokens", responses_json responses)
    ∷ ("context_efficiency", obj (of_fields (context_efficiency w.tokens responses)))
    ∷ []

module _ (log2 : Ratio → Ratio) (dumps : Json → String) (counter : TokenCounter)
    (to_price : String → Option Ratio) where
  -- The result, from the weights and what was sampled
  unfoldable pub cost_result :
      CostConfig → Weights → ℕ → Option (Dict ℕ) → List Finding → FamilyScore
  cost_result config w tools responses sampled =
      cost_family (cost_score log2 w.tokens)
        (bloat_findings (by_weight w.per_tool) ++ remediation_findings w.tokens ++ sampled)
        (cost_metrics w (usd_by_point w.tokens (resolve_price_points to_price config.price_points))
          tools responses)

  -- The weights of the tools, offline or to the provider's count
  abbrev toolset_weights : CostConfig → List ToolDef → Weights
  toolset_weights config tools =
      weights_of config.authoritative counter (counter.count (serialize_toolset dumps tools))
        (leave_one_out dumps counter tools tools [])

  module _ {S : Type 0} (call : String → Json → S → Answer × S)
      (synthesize_args : Json → Json) where
    abbrev after_samples : CostConfig → Weights → ℕ → Option Sampled × S → Option FamilyScore × S
    after_samples config w tools (none, s) = (none, s)
    after_samples config w tools (some out, s) =
        (some (cost_result config w tools (some out.tokens) out.findings), s)

    -- `CostEngine.run`, where `live` says that there is a client; `none` is an exception
    unfoldable pub cost_run : CostConfig → Bool → ServerSurface → S → Option FamilyScore × S
    cost_run config live surface s =
        let w = toolset_weights config surface.tools in
        let tools = length surface.tools in
        if is_empty surface.tools
        then (some (empty_cost counter), s)
        else if config.response_bloat && live
        then after_samples config w tools (
            sample_responses counter dumps call synthesize_args surface.tools
              (some (record { tokens = []; findings = [] }), s))
        else (some (cost_result config w tools none []), s)
