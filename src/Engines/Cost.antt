-- ===== src/Engines/Cost.antt =====
-- src/mcp_quality/engines/cost.py: the weights of the tools, the score and the findings.
-- `math.log2`, `float` and the count of a provider are parameters. Prices are taken to be no
-- lower than 0.
pub mod Sampling
mod Examples
pub mod Run
pub mod Monotone
use Prim.Native.Char.{code}
use mcp_probe.Base.{
  String, List, ℕ, Bool, Option, if◌then◌else◌, ◌∷◌, leb, some, none, [], true, false, zero, suc,
  inl, inr, filter, ◌*◌, ltb, ◌==◌, not, ◌<>◌, str_eq, show_nat, ◌-◌,
}
use mcp_probe.Base.Ratio
use mcp_probe.Base.Ratio.{Ratio, ratio, whole}
use mcp_probe.Base.Dict.{Dict, insert}
use mcp_probe.Base.Json.{Json, nat, of_fields}
use mcp_probe.Base.Sorting.{sort}
use mcp_probe.Models.{Finding, Severity, info, low, medium, high, ToolDef}
use mcp_probe.Engines.Tokens.{TokenCounter, serialize_toolset}

-- `cost_score`, with the penalty 10.7 * l + 1.8 * l * l for the logarithm `l`; the subtraction
-- stops at 0, as `clamp` does
unfoldable pub penalty_of : Ratio → Ratio
penalty_of l = Ratio.add (Ratio.mul (ratio 107 10) l) (Ratio.mul (Ratio.mul (ratio 9 5) l) l)

unfoldable pub cost_score : (Ratio → Ratio) → ℕ → Ratio
cost_score log2 tokens =
    if leb tokens 2000
    then whole 100
    else Ratio.monus (whole 100) (penalty_of (log2 (ratio tokens 2000)))

module _ (dumps : Json → String) (counter : TokenCounter) where
  abbrev count_tools : List ToolDef → ℕ
  count_tools [] = 0
  count_tools (t ∷ ts) = counter.count (serialize_toolset dumps (t ∷ ts))

  -- The loop over the tools: each one's weight is what the toolset loses without its name
  unfoldable pub leave_one_out : List ToolDef → List ToolDef → Dict ℕ → Dict ℕ
  leave_one_out tools [] per_tool = per_tool
  leave_one_out tools (t ∷ ts) per_tool =
      let without = filter (λ (x : ToolDef). not (str_eq x.name t.name)) tools in
      leave_one_out tools ts (
        insert t.name (counter.count (serialize_toolset dumps tools) - count_tools without)
          per_tool)

-- `{n: max(0, round(w * scale)) for n, w in per_tool.items()}`
unfoldable pub rescale : ℕ → ℕ → Dict ℕ → Dict ℕ
rescale authoritative offline [] = []
rescale authoritative offline ((name, w) ∷ d) =
    (name, Ratio.round_units 1 (ratio (w * authoritative) offline))
    ∷ rescale authoritative offline d

-- `sorted(per_tool.items(), key=lambda kv: kv[1], reverse=True)`
abbrev pub by_weight : Dict ℕ → Dict ℕ
by_weight = sort (λ (a b : String × ℕ). leb b.1 a.1)

abbrev pub cost_finding :
    String → Severity → Option String → String → String → List (String × Json) → Finding
cost_finding code severity tool message remediation evidence = record {
  family = "cost";
  code = code;
  severity = severity;
  message = message;
  tool = tool;
  remediation = some remediation;
  owasp_id = none;
  source = "builtin";
  evidence = some (of_fields evidence);
}

-- The finding of a tool above 700 tokens
unfoldable pub bloat_findings : Dict ℕ → List Finding
bloat_findings [] = []
bloat_findings ((name, weight) ∷ rest) =
    let others = bloat_findings rest in
    if ltb 700 weight
    then cost_finding "$2-bloat" (if ltb weight 1400 then medium else high) (some name)
        ("tool '" <> name <> "' costs ~" <> show_nat weight <> " tokens of context on every turn")
        ("tighten the description/schema, split the tool, or adopt "
          <> "Tool Search / lazy-loading to defer its context cost")
        (("tokens", nat weight) ∷ [])
      ∷ others
    else others

-- The hint for a toolset above 10,000 tokens
unfoldable pub remediation_findings : ℕ → List Finding
remediation_findings tokens =
    if ltb 10000 tokens
    then cost_finding "$6-remediation" info none
        ("toolset is "
          <> show_nat tokens
          <> " tokens; Tool Search / lazy-loading / "
          <> "Code Mode could defer up to ~"
          <> show_nat (tokens - 2000)
          <> " tokens ("
          <> show_nat (Ratio.round_units 1 (ratio (100 * (tokens - 2000)) tokens))
          <> "%) until a tool is used")
        ("adopt MCP Tool Search or load tool defs lazily; keep only "
          <> "always-needed tools eager")
        (("toolset_tokens", nat tokens) ∷ ("deferrable_tokens", nat (tokens - 2000)) ∷ [])
      ∷ []
    else []

-- `DEFAULT_PRICE_POINTS`
abbrev pub default_price_points : Dict Ratio
default_price_points = ("premium", whole 3) ∷ ("mid", whole 1) ∷ ("cheap", ratio 3 20) ∷ []

-- `item.partition(":")`, `none` where there is no colon
abbrev pub partition_colon : String → Option (String × String)
partition_colon String.[] = none
partition_colon (String.◌∷◌ c s) = if code c == 58 then some ("", s) else elim (partition_colon s) [
  | none ↦ none
  | some (label, rest) ↦ some (String.◌∷◌ c label, rest)
]

abbrev put_price : String → Option Ratio → Dict Ratio → Dict Ratio
put_price label none out = out
put_price label (some usd) out = insert label usd out

-- The loop of `_resolve_price_points`; `to_price` is `float`, `none` where it raises
abbrev pub parse_prices : (String → Option Ratio) → List String → Dict Ratio → Dict Ratio
parse_prices to_price [] out = out
parse_prices to_price (item ∷ rest) out = parse_prices to_price rest (elim (partition_colon item) [
  | none ↦ out
  | some (label, val) ↦ put_price label (to_price val) out
])

abbrev pub or_default : Dict Ratio → Dict Ratio
or_default [] = default_price_points
or_default (p ∷ ps) = p ∷ ps

-- `_resolve_price_points`
unfoldable pub resolve_price_points : (String → Option Ratio) → List String → Dict Ratio
resolve_price_points to_price configured = or_default (parse_prices to_price configured [])

-- `{label: round(toolset_tokens / 1_000_000 * price, 4)}`
unfoldable pub usd_by_point : ℕ → Dict Ratio → Dict Ratio
usd_by_point tokens [] = []
usd_by_point tokens ((label, price) ∷ d) =
    (label, Ratio.round 10000 (Ratio.mul (ratio tokens 1000000) price)) ∷ usd_by_point tokens d
