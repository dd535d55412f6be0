-- ===== src/Legibility/Consensus.antt =====
-- src/mcp_quality/legibility/consensus.py: do the models of a panel agree on a tool per goal.
use mcp_probe.Base.{
  ℕ, List, String, ◌<◌, ◌∷◌, length, [], Option, Bool, ◌≤◌, ◌+◌, All, get_elem?, max, min, suc,
  option_or, some, count_if, arith, none, zero, str_eq, if◌then◌else◌, take, str_eq_refl, ◌≡◌, refl,
}
use mcp_probe.Base.Ratio
use mcp_probe.Base.Ratio.{Ratio, ratio, whole, sum}
use mcp_probe.Base.Dict
use mcp_probe.Base.Dict.{Dict}
use mcp_probe.Base.Sorting.{sort}

-- `[pm[i] for pm in picks_per_model]`; every index that is asked for is in range
abbrev pub column : ℕ → List (List String) → List String
column i [] = []
column i (pm ∷ pms) = elim (get_elem? pm i) [ none ↦ column i pms | some p ↦ p ∷ column i pms ]

-- The largest count, in `picks`, of a pick of the first list.
abbrev pub most : List String → List String → ℕ
most [] picks = 0
most (p ∷ ps) picks = max (count_if (str_eq p) picks) (most ps picks)

-- `Counter(picks).most_common(1)[0][1]`
unfoldable pub modal_count : List String → ℕ
modal_count picks = most picks picks

-- `min(len(p) for p in picks_per_model)`
unfoldable pub goal_count : List String → List (List String) → ℕ
goal_count pm [] = length pm
goal_count pm (q ∷ qs) = min (length pm) (goal_count q qs)

-- The agreement on the goals from the i-th on.
unfoldable pub agreements : List (List String) → ℕ → ℕ → List Ratio
agreements picks i zero = []
agreements picks i (suc more) =
    ratio (modal_count (column i picks)) (length picks) ∷ agreements picks (suc i) more

-- `agreement_per_goal`
unfoldable pub agreement_per_goal : List (List String) → List Ratio
agreement_per_goal [] = []
agreement_per_goal (pm ∷ pms) = agreements (pm ∷ pms) 0 (goal_count pm pms)

pub record Divergence : Type 0 where
  pub goal : String
  pub golden : String
  pub picks : Dict ℕ
  pub agreement : Ratio

-- `dict(Counter(picks))`
unfoldable pub tally : List String → Dict ℕ → Dict ℕ
tally [] counts = counts
tally (p ∷ ps) counts = tally ps (Dict.insert p (option_or (Dict.get p counts) 0 + 1) counts)

-- The goals on which the panel split, from the i-th on. `none` is a goal that the list lacks, an
-- IndexError.
unfoldable pub divergences :
    List (List String) → ℕ → List Ratio → List (String × String) → Option (List Divergence)
divergences picks i [] goals = some []
divergences picks i (a ∷ as_) goals = elim (divergences picks (suc i) as_ goals) [
  | none ↦ none
  | some rest ↦
      if Ratio.ltb a (whole 1)
      then elim (get_elem? goals i) [
        | none ↦ none
        | some (goal, golden) ↦ some (
            record {
              goal = goal;
              golden = golden;
              picks = tally (column i picks) [];
              agreement = Ratio.round 1000 a;
            }
            ∷ rest)
      ]
      else some rest
]

pub record Consensus : Type 0 where
  pub models : List String
  pub goals_compared : ℕ
  pub mean_agreement : Ratio
  pub disagreement_rate : Ratio
  pub divergent_goals : List Divergence

-- `sum(agr) / len(agr) if agr else 1.0`
unfoldable pub mean_agreement : List Ratio → Ratio
mean_agreement [] = whole 1
mean_agreement (a ∷ as_) = Ratio.div (sum (a ∷ as_)) (whole (length (a ∷ as_)))

unfoldable pub disagreement_rate : List Ratio → Ratio
disagreement_rate [] = whole 0
disagreement_rate (a ∷ as_) =
    ratio (count_if (λ r. Ratio.ltb r (whole 1)) (a ∷ as_)) (length (a ∷ as_))

-- `consensus_report`
unfoldable pub consensus_report :
    List String → List (List String) → List (String × String) → Option Consensus
consensus_report models picks goals =
    let agr = agreement_per_goal picks in
    elim (divergences picks 0 agr goals) [
      | none ↦ none
      | some divergent ↦ some (record {
        models = models;
        goals_compared = length agr;
        mean_agreement = Ratio.round 1000 (mean_agreement agr);
        disagreement_rate = Ratio.round 1000 (disagreement_rate agr);
        divergent_goals =
            take 5 (sort (λ (d e : Divergence). Ratio.leb d.agreement e.agreement) divergent);
      })
    ]

count_if-le : (p : String → Bool) (xs : List String) → count_if p xs ≤ length xs
count_if-le p [] = omega arith
count_if-le p (x ∷ xs) = ground (arith, count_if-le p xs)

most-le : (ps picks : List String) → most ps picks ≤ length picks
most-le [] picks = omega arith
most-le (p ∷ ps) picks = omega (arith, count_if-le (str_eq p) picks, most-le ps picks)

modal_count-pos : (p : String) (ps : List String) → 0 < modal_count (p ∷ ps)
unfolding modal_count
modal_count-pos p ps = ground (arith, str_eq_refl p)

length-column-le : (i : ℕ) (picks : List (List String)) → length (column i picks) ≤ length picks
length-column-le i [] = omega arith
length-column-le i (pm ∷ pms) = ground (arith, length-column-le i pms)

get_elem_in : (xs : List String) (i : ℕ) → i < length xs → (x : String) × (get_elem? xs i ≡ some x)
get_elem_in [] i h = elim h [ ]
get_elem_in (x ∷ xs) zero h = (x, refl)
get_elem_in (x ∷ xs) (suc i) h = get_elem_in xs i (omega arith)

-- A share above 0 and at most 1.
abbrev pub IsShare : Ratio → Type 0
IsShare r = (0 < r.num) × (r.num ≤ r.den)

IsShare-column :
    (pm : List String) (pms : List (List String)) (i : ℕ)
    → i < length pm
    → IsShare (ratio (modal_count (column i (pm ∷ pms))) (length (pm ∷ pms)))
IsShare-column pm pms i h =
    let (x, e) = get_elem_in pm i h in
    let low : 0 < modal_count (column i (pm ∷ pms)) =
      rw (e, column) (modal_count-pos x (column i pms)) in
    (
      low,
      unfold modal_count in
          omega (
            arith,
            most-le (column i (pm ∷ pms)) (column i (pm ∷ pms)),
            length-column-le i (pm ∷ pms),
          ),
    )

goal_count-le : (pm : List String) (pms : List (List String)) → goal_count pm pms ≤ length pm
unfolding goal_count
goal_count-le pm [] = omega arith
goal_count-le pm (q ∷ qs) = omega arith

All-agreements :
    (pm : List String) (pms : List (List String)) (i more : ℕ)
    → i + more ≤ length pm
    → All IsShare (agreements (pm ∷ pms) i more)
unfolding agreements
All-agreements pm pms i zero h = tt
All-agreements pm pms i (suc more) h =
    (IsShare-column pm pms i (omega arith), All-agreements pm pms (suc i) more (omega arith))

-- The agreement on each goal is above 0 and at most 1, whatever the models picked.
pub agreement_per_goal-IsShare :
    (picks : List (List String)) → All IsShare (agreement_per_goal picks)
unfolding agreement_per_goal
agreement_per_goal-IsShare [] = tt
agreement_per_goal-IsShare (pm ∷ pms) =
    All-agreements pm pms 0 (goal_count pm pms) (omega (arith, goal_count-le pm pms))
