-- ===== src/Legibility/Probe/Bounds.antt =====
-- src/mcp_quality/engines/legibility.py: the rates of the comprehension probe.
use native.Mathlib.Nat.{mul_comm, mul-le-mul_right}
use mcp_probe.Base.{
  String, List, ℕ, Bool, ◌≤◌, All, map, length, arith, [], ◌∷◌, true, false, zero, suc, ◌*◌, ◌+◌,
  ◌<◌, option_or, ◌++◌, if◌then◌else◌, All-map, str_empty,
}
use mcp_probe.Base.Ratio.{Ratio, sum, IsRatio}
use mcp_probe.Base.Ratio.Laws.{mul-pos, IsRatio-sum}
use mcp_probe.Base.Dict.{Dict, get, insert, of_pairs, update}
use mcp_probe.Models.{ToolDef}
use mcp_probe.Legibility.Probe.{
  Provider, Confusion, total_of, row_rates, all_rates, mean_rate, ask_goals, count_fires, start,
  comprehension_probe, out_of_scope_prompts, denominator, tool_pairs,
}
use mcp_probe.Legibility.Probe.Counts.{
  wrong, wrong-insert, IsCounted, IsCounted-insert, ask_goals-counts, ask_goals-IsCounted,
}

-- A number from 0 to 1.
abbrev pub IsRate : Ratio → Type 0
IsRate r = IsRatio r × (r.num ≤ r.den)

weighted-le : (a b x s l : ℕ) → a ≤ b → x ≤ l * s → a * s + x * b ≤ suc l * (b * s)
weighted-le a b x s l h k = grind (arith, mul-le-mul_right s h, mul-le-mul_right b k)

Le-sum-one : (rs : List Ratio) → All IsRate rs → (sum rs).num ≤ length rs * (sum rs).den
Le-sum-one [] h = omega arith
Le-sum-one (r ∷ rs) h =
    weighted-le r.num r.den (sum rs).num (sum rs).den (length rs) h.0.1 (Le-sum-one rs h.1)

denominator-pos : (n : ℕ) → 0 < denominator n
denominator-pos zero = omega arith
denominator-pos (suc n) = omega arith

denominator-le : (n : ℕ) → n ≤ denominator n
denominator-le zero = omega arith
denominator-le (suc n) = omega arith

mean_rate-IsRate : (rs : List Ratio) → All IsRate rs → IsRate (mean_rate rs)
unfolding mean_rate
mean_rate-IsRate [] h = (omega arith, omega arith)
mean_rate-IsRate (r ∷ rs) h =
    let positive : 0 < (sum (r ∷ rs)).den =
      IsRatio-sum (r ∷ rs) (All-map (λ s k. k.0) (r ∷ rs) h) in
    (
      mul-pos (sum (r ∷ rs)).den (suc (length rs)) positive (omega arith),
      omega (arith, Le-sum-one (r ∷ rs) h, mul_comm (length (r ∷ rs)) (sum (r ∷ rs)).den),
    )

row_rates-IsRate :
    (golden : String) (total : ℕ) (d : Dict ℕ)
    → total_of d ≤ total
    → All (λ (c : Confusion). IsRate c.rate) (row_rates golden total d)
unfolding row_rates
row_rates-IsRate golden total [] h = tt
row_rates-IsRate golden total ((k, n) ∷ d) h = (
  (denominator-pos total, omega (arith, denominator-le total)),
  row_rates-IsRate golden total d (omega arith),
)

All-append :
    (xs ys : List Confusion)
    → All (λ (c : Confusion). IsRate c.rate) xs
    → All (λ (c : Confusion). IsRate c.rate) ys
    → All (λ (c : Confusion). IsRate c.rate) (xs ++ ys)
All-append [] ys h k = k
All-append (x ∷ xs) ys h k = (h.0, All-append xs ys h.1 k)

all_rates-IsRate :
    (totals : Dict ℕ) (c : Dict (Dict ℕ))
    → IsCounted totals c
    → All (λ (c : Confusion). IsRate c.rate) (all_rates totals c)
unfolding all_rates
all_rates-IsRate totals [] h = tt
all_rates-IsRate totals ((k, d) ∷ c) h =
    All-append _ _ (row_rates-IsRate k (option_or (get k totals) 0) d h.0)
      (all_rates-IsRate totals c h.1)

-- Before the first goal no row has a count.
empty-IsCounted :
    (totals : Dict ℕ) (names : List String) (c : Dict (Dict ℕ))
    → IsCounted totals c
    → IsCounted totals (update c (map (λ n. (n, [])) names))
unfolding update
empty-IsCounted totals [] c h = h
empty-IsCounted totals (n ∷ names) c h =
    empty-IsCounted totals names (insert n [] c) (IsCounted-insert n [] totals c (omega arith) h)

empty-wrong :
    (names : List String) (c : Dict (Dict ℕ))
    → wrong (update c (map (λ n. (n, [])) names)) ≤ wrong c
unfolding update
empty-wrong [] c = omega arith
empty-wrong (n ∷ names) c = omega (arith, empty-wrong names (insert n [] c), wrong-insert n [] c)

if-le : (b : Bool) (n : ℕ) → (if b then n else n + 1) ≤ n + 1
if-le true n = omega arith
if-le false n = omega arith

All-rates :
    (cs : List Confusion)
    → All (λ (c : Confusion). IsRate c.rate) cs
    → All IsRate (map (λ (c : Confusion). c.rate) cs)
All-rates [] h = tt
All-rates (c ∷ cs) h = (h.0, All-rates cs h.1)

module _ {M : Type 0} (provider : Provider M) where
  fires-le :
      (tools : List (String × String)) (ps : List String) (fires : ℕ) (m : M)
      → (count_fires provider tools ps (fires, m)).0 ≤ length ps + fires
  unfolding count_fires
  fires-le tools [] fires m = omega arith
  fires-le tools (p ∷ ps) fires m =
      let answer = provider.choose_tool m p tools true in
      omega (
        arith,
        fires-le tools ps (if str_empty answer.0 then fires else fires + 1) answer.1,
        if-le (str_empty answer.0) fires,
      )

  correct-le :
      (pairs goals : List (String × String)) (names : List String) (m : M)
      → (ask_goals provider pairs goals (start provider names m)).correct ≤ length goals
  unfolding of_pairs
  correct-le pairs goals names m =
      omega (
        arith,
        ask_goals-counts provider pairs goals (start provider names m),
        empty-wrong names [],
      )

  -- Whatever the model chooses, the selection rate, the rate of false fires and the mean
  -- confusion are numbers from 0 to 1.
  pub comprehension_probe-IsRate :
      (goals : List (String × String)) (tools : List ToolDef) (m : M)
      → (let probe = (comprehension_probe provider goals tools m).0 in
          IsRate probe.selection_rate × IsRate probe.false_fire_rate × IsRate probe.mean_confusion)
  unfolding comprehension_probe of_pairs
  comprehension_probe-IsRate goals tools m =
      let names = map (λ (t : ToolDef). t.name) tools in
      let tally = ask_goals provider (tool_pairs tools) goals (start provider names m) in
      let counted =
        ask_goals-IsCounted provider (tool_pairs tools) goals (start provider names m)
          (empty-IsCounted (start provider names m).per_tool_total names [] tt) in
      (
        (
          denominator-pos (length goals),
          omega (arith, correct-le (tool_pairs tools) goals names m, denominator-le (length goals)),
        ),
        (
          omega arith,
          omega (arith, fires-le (tool_pairs tools) out_of_scope_prompts 0 tally.models),
        ),
        mean_rate-IsRate _
            (All-rates _ (all_rates-IsRate tally.per_tool_total tally.confusion counted)),
      )
