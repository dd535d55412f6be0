-- ===== src/Legibility/Probe.antt =====
-- src/mcp_quality/engines/legibility.py: the goals, and what a model chooses for them.
-- The model is a `Provider` over the state `M` of all models; the texts' Unicode is a parameter.
pub mod Counts
pub mod Bounds
use mathlib.Core.List.{reverse}
use mcp_probe.Base.{
  String, List, ℕ, Bool, Option, ◌∷◌, ◌<>◌, text_or_empty, flat_map, map, option_or, if◌then◌else◌,
  suc, [], none, some, true, false, zero, ◌==◌, codes, ◌+◌, str_eq, length, not, leb, str_empty,
  ◌++◌, ◌&&◌, ltb, ◌*◌, ◌-◌,
}
use mcp_probe.Base.Ratio
use mcp_probe.Base.Ratio.{Ratio, ratio, whole, sum}
use mcp_probe.Base.Dict.{Dict, get, insert, of_pairs}
use mcp_probe.Base.Regex.{Wide, strip_blank}
use mcp_probe.Models.{ToolDef}

-- `ModelProvider`
pub record Provider (M : Type 0) : Type 0 where
  pub model_id : String
  pub seed : ℕ
  pub is_canonical : Bool
  pub choose_tool : M → String → List (String × String) → Bool → String × M
  pub propose_rewrite : M → String → String → List String → String × M

abbrev drop_dots : List ℕ → List ℕ
drop_dots [] = []
drop_dots (c ∷ cs) = if c == 46 then drop_dots cs else c ∷ cs

-- `text.rstrip(".")`
abbrev strip_dots : List ℕ → List ℕ
strip_dots cs = reverse (drop_dots (reverse cs))

-- `OUT_OF_SCOPE_PROMPTS`
abbrev pub out_of_scope_prompts : List String
out_of_scope_prompts =
    "What is the capital of France?" ∷ "Write a haiku about the ocean."
    ∷ "What is 17 multiplied by 24?" ∷ "Translate 'good morning' into Spanish."
    ∷ "Summarize the plot of Hamlet in one sentence." ∷ []

-- `GOAL_TEMPLATES`, filled in, with the tool that should win
abbrev pub goals_of : String → String → List (String × String)
goals_of intent name =
    ("I need to " <> intent, name)
    ∷ ("How do I " <> intent <> "?", name)
    ∷ ("Help me " <> intent, name)
    ∷ []

module _ (wide : Wide) (lower : ℕ → List ℕ) (of_codes : List ℕ → String) where
  abbrev decapitalize : String → List ℕ → String
  decapitalize name [] = name
  decapitalize name (c ∷ cs) = of_codes (lower c ++ cs)

  -- `_intent`
  unfoldable pub intent : Option String → String → String
  intent description name =
      let said = text_or_empty description in
      decapitalize name
        (strip_dots (strip_blank wide (codes (if str_empty said then name else said))))

  -- `build_goals`
  unfoldable pub build_goals : List ToolDef → List (String × String)
  build_goals tools =
      flat_map (λ (t : ToolDef). goals_of (intent t.description t.name) t.name) tools

-- `[(t.name, t.description or "") for t in surface.tools]`
abbrev pub tool_pairs : List ToolDef → List (String × String)
tool_pairs tools = map (λ (t : ToolDef). (t.name, text_or_empty t.description)) tools

-- The counts of `_comprehension_probe`
pub record Tally (M : Type 0) : Type 0 where
  pub models : M
  pub correct : ℕ
  pub per_tool_total : Dict ℕ
  pub confusion : Dict (Dict ℕ)

-- `d[k] = d.get(k, 0) + 1`
abbrev pub bump : String → Dict ℕ → Dict ℕ
bump k d = insert k (option_or (get k d) 0 + 1) d

-- `confusion[golden]`; each golden tool has a row from the start
abbrev pub row : String → Dict (Dict ℕ) → Dict ℕ
row golden confusion = option_or (get golden confusion) []

-- The body of the loop over the goals, after the choice
unfoldable pub count_choice : {M : Type 0} → String → String × M → Tally M → Tally M
count_choice golden (chosen, m) t =
    if str_eq chosen golden
    then record {
      models = m;
      correct = t.correct + 1;
      per_tool_total = bump golden t.per_tool_total;
      confusion = t.confusion;
    }
    else record {
      models = m;
      correct = t.correct;
      per_tool_total = bump golden t.per_tool_total;
      confusion = insert golden (bump chosen (row golden t.confusion)) t.confusion;
    }

-- A pair of tools with the share of the first one's goals that went to the second
pub record Confusion : Type 0 where
  pub golden : String
  pub chosen : String
  pub rate : Ratio

-- `per_tool_total[true_tool] or 1`
abbrev pub denominator : ℕ → ℕ
denominator zero = 1
denominator (suc n) = suc n

-- The inner loop over a row of the confusions
unfoldable pub row_rates : String → ℕ → Dict ℕ → List Confusion
row_rates golden total [] = []
row_rates golden total ((chosen, count) ∷ rest) =
    record { golden = golden; chosen = chosen; rate = ratio count (denominator total) }
    ∷ row_rates golden total rest

unfoldable pub all_rates : Dict ℕ → Dict (Dict ℕ) → List Confusion
all_rates totals [] = []
all_rates totals ((golden, chosens) ∷ rest) =
    row_rates golden (option_or (get golden totals) 0) chosens ++ all_rates totals rest

-- `top_confusion`: the first of the highest rates above `best`
unfoldable pub top_of : Option Confusion → Ratio → List Confusion → Option Confusion
top_of top best [] = top
top_of top best (c ∷ cs) =
    let higher = top_of (some (record c { rate = Ratio.round 1000 c.rate })) c.rate cs in
    let same = top_of top best cs in if Ratio.ltb best c.rate then higher else same

-- `sum(conf_rates) / len(conf_rates) if conf_rates else 0.0`
unfoldable pub mean_rate : List Ratio → Ratio
mean_rate [] = whole 0
mean_rate (r ∷ rs) = Ratio.div (sum (r ∷ rs)) (whole (length (r ∷ rs)))

abbrev pub total_of : Dict ℕ → ℕ
total_of [] = 0
total_of ((k, n) ∷ d) = n + total_of d

-- `low_tools`: less than 0.6 of a tool's goals reached it
unfoldable pub low_tools : Dict ℕ → Dict (Dict ℕ) → List String
low_tools [] confusion = []
low_tools ((t, total) ∷ rest) confusion =
    let others = low_tools rest confusion in
    if not (total == 0) && ltb (10 * (total - total_of (row t confusion))) (6 * total)
    then t ∷ others
    else others

pub record Rewrite : Type 0 where
  pub tool : String
  pub rewrite : String
  pub old : String

-- What `_comprehension_probe` returns, with the rewrites
pub record Probe : Type 0 where
  pub selection_rate : Ratio
  pub false_fire_rate : Ratio
  pub top_confusion : Option Confusion
  pub mean_confusion : Ratio
  pub low_tools : List String
  pub matrix : Option (Dict (Dict ℕ))
  pub tool_order : Option (List String)
  pub per_tool_total : Option (Dict ℕ)
  pub rewrites : List Rewrite

-- `x if len(names) <= 15 else None`
abbrev when_small {ℓ} : {A : Type ℓ} → List String → A → Option A
when_small names a = if leb (length names) 15 then some a else none

module _ {M : Type 0} (provider : Provider M) where
  -- The loop over the goals
  unfoldable pub ask_goals : List (String × String) → List (String × String) → Tally M → Tally M
  ask_goals tools [] t = t
  ask_goals tools ((goal, golden) ∷ rest) t =
      ask_goals tools rest (count_choice golden (provider.choose_tool t.models goal tools false) t)

  -- The loop over the prompts that no tool should handle
  unfoldable pub count_fires : List (String × String) → List String → ℕ × M → ℕ × M
  count_fires tools [] acc = acc
  count_fires tools (p ∷ ps) (fires, m) =
      let answer = provider.choose_tool m p tools true in
      count_fires tools ps (if str_empty answer.0 then fires else fires + 1, answer.1)

  -- The tally before the first goal
  abbrev pub start : List String → M → Tally M
  start names m = record {
    models = m;
    correct = 0;
    per_tool_total = of_pairs (map (λ n. (n, 0)) names);
    confusion = of_pairs (map (λ n. (n, [])) names);
  }

  -- `_comprehension_probe`, for the goals of the tools
  unfoldable pub comprehension_probe : List (String × String) → List ToolDef → M → Probe × M
  comprehension_probe goals tools m =
      let names = map (λ (t : ToolDef). t.name) tools in
      let pairs = tool_pairs tools in
      let tally = ask_goals pairs goals (start names m) in
      let rates = all_rates tally.per_tool_total tally.confusion in
      let fires = count_fires pairs out_of_scope_prompts (0, tally.models) in
      (
        record {
          selection_rate = ratio tally.correct (denominator (length goals));
          false_fire_rate = ratio fires.0 5;
          top_confusion = top_of none (whole 0) rates;
          mean_confusion = mean_rate (map (λ (c : Confusion). c.rate) rates);
          low_tools = low_tools tally.per_tool_total tally.confusion;
          matrix = when_small names tally.confusion;
          tool_order = when_small names names;
          per_tool_total = when_small names tally.per_tool_total;
          rewrites = [];
        },
        fires.1,
      )
