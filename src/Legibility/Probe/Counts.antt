-- ===== src/Legibility/Probe/Counts.antt =====
-- src/mcp_quality/engines/legibility.py: the counts of the comprehension probe.
use mcp_probe.Base.{
  String, List, ℕ, ◌≡◌, All, ◌≤◌, Bool-cases, ◌+◌, [], ◌∷◌, false, suc, inl, inr, str_eq, arith,
  length, option_or, str_eq_iff, str_eq_refl, ◌∙◌, subst, sym,
}
use mcp_probe.Base.Dict.{Dict, get, insert, get-insert}
use mcp_probe.Legibility.Probe.{Provider, Tally, bump, row, count_choice, total_of, ask_goals}

total_of-insert :
    (k : String) (v : ℕ) (d : Dict ℕ)
    → total_of (insert k v d) + option_or (get k d) 0 ≡ total_of d + v
unfolding insert get
total_of-insert k v [] = omega arith
total_of-insert k v ((j, n) ∷ d) = elim (Bool-cases (str_eq j k)) [
  | inl hit ↦ rw hit (omega arith)
  | inr miss ↦ rw miss (omega (arith, total_of-insert k v d))
]

total_of-bump : (k : String) (d : Dict ℕ) → total_of (bump k d) ≡ total_of d + 1
total_of-bump k d = omega (arith, total_of-insert k (option_or (get k d) 0 + 1) d)

-- All goals that went to another tool
abbrev pub wrong : Dict (Dict ℕ) → ℕ
wrong [] = 0
wrong ((k, d) ∷ c) = total_of d + wrong c

pub wrong-insert :
    (g : String) (d : Dict ℕ) (c : Dict (Dict ℕ))
    → wrong (insert g d c) + total_of (row g c) ≡ wrong c + total_of d
unfolding insert get
wrong-insert g d [] = omega arith
wrong-insert g d ((j, e) ∷ c) = elim (Bool-cases (str_eq j g)) [
  | inl hit ↦ rw hit (omega arith)
  | inr miss ↦ rw miss (omega (arith, wrong-insert g d c))
]

count_choice-counts :
    {M : Type 0} (golden : String) (answer : String × M) (t : Tally M)
    → (count_choice golden answer t).correct + wrong (count_choice golden answer t).confusion
      ≡ suc (t.correct + wrong t.confusion)
unfolding count_choice
count_choice-counts golden (chosen, m) t = elim (Bool-cases (str_eq chosen golden)) [
  | inl right ↦ rw right (omega arith)
  | inr other ↦ rw other (
      omega (
        arith,
        wrong-insert golden (bump chosen (row golden t.confusion)) t.confusion,
        total_of-bump chosen (row golden t.confusion),
      ))
]

-- The bound of each row: a tool's goals that went elsewhere are among its goals.
abbrev pub IsCounted : Dict ℕ → Dict (Dict ℕ) → Type 0
IsCounted totals c = All (λ (e : String × Dict ℕ). total_of e.1 ≤ option_or (get e.0 totals) 0) c

get-bump-le :
    (g k : String) (totals : Dict ℕ)
    → option_or (get k totals) 0 ≤ option_or (get k (bump g totals)) 0
get-bump-le g k totals =
    ground (arith, str_eq_iff g k, get-insert g k (option_or (get g totals) 0 + 1) totals)

get-bump :
    (g : String) (totals : Dict ℕ)
    → option_or (get g (bump g totals)) 0 ≡ option_or (get g totals) 0 + 1
get-bump g totals =
    ground (arith, str_eq_refl g, get-insert g g (option_or (get g totals) 0 + 1) totals)

IsCounted-bump :
    (g : String) (totals : Dict ℕ) (c : Dict (Dict ℕ))
    → IsCounted totals c
    → IsCounted (bump g totals) c
IsCounted-bump g totals [] h = tt
IsCounted-bump g totals ((k, d) ∷ c) h =
    (omega (arith, h.0, get-bump-le g k totals), IsCounted-bump g totals c h.1)

row-le :
    (g : String) (totals : Dict ℕ) (c : Dict (Dict ℕ))
    → IsCounted totals c
    → total_of (row g c) ≤ option_or (get g totals) 0
unfolding get
row-le g totals [] h = omega arith
row-le g totals ((k, d) ∷ c) h = elim (Bool-cases (str_eq k g)) [
  | inl hit ↦
      let same : k ≡ g = (str_eq_iff k g).0 hit in
      rw hit (subst (λ s. total_of d ≤ option_or (get s totals) 0) same h.0)
  | inr miss ↦ rw miss (row-le g totals c h.1)
]

pub IsCounted-insert :
    (g : String) (d : Dict ℕ) (totals : Dict ℕ) (c : Dict (Dict ℕ))
    → total_of d ≤ option_or (get g totals) 0
    → IsCounted totals c
    → IsCounted totals (insert g d c)
unfolding insert
IsCounted-insert g d totals [] b h = (b, tt)
IsCounted-insert g d totals ((k, e) ∷ c) b h = elim (Bool-cases (str_eq k g)) [
  | inl hit ↦
      let same : k ≡ g = (str_eq_iff k g).0 hit in
      rw hit (subst (λ s. total_of d ≤ option_or (get s totals) 0) (sym same) b, h.1)
  | inr miss ↦ rw miss (h.0, IsCounted-insert g d totals c b h.1)
]

IsCounted-count_choice :
    {M : Type 0} (golden : String) (answer : String × M) (t : Tally M)
    → IsCounted t.per_tool_total t.confusion
    → (let u = count_choice golden answer t in IsCounted u.per_tool_total u.confusion)
unfolding count_choice
IsCounted-count_choice golden (chosen, m) t h = elim (Bool-cases (str_eq chosen golden)) [
  | inl right ↦ rw right (IsCounted-bump golden t.per_tool_total t.confusion h)
  | inr other ↦ rw other (
      IsCounted-insert golden (bump chosen (row golden t.confusion)) (bump golden t.per_tool_total)
        t.confusion
        (omega (
          arith,
          total_of-bump chosen (row golden t.confusion),
          get-bump golden t.per_tool_total,
          row-le golden t.per_tool_total t.confusion h,
        ))
        (IsCounted-bump golden t.per_tool_total t.confusion h))
]

module _ {M : Type 0} (provider : Provider M) where
  -- Every goal is counted once: for its tool, or for the tool that was chosen in its place.
  pub ask_goals-counts :
      (tools goals : List (String × String)) (t : Tally M)
      → (let u = ask_goals provider tools goals t in u.correct + wrong u.confusion)
        ≡ length goals + (t.correct + wrong t.confusion)
  unfolding ask_goals
  ask_goals-counts tools [] t = omega arith
  ask_goals-counts tools ((goal, golden) ∷ rest) t =
      let answer = provider.choose_tool t.models goal tools false in
      ask_goals-counts tools rest (count_choice golden answer t)
      ∙ omega (arith, count_choice-counts golden answer t)

  pub ask_goals-IsCounted :
      (tools goals : List (String × String)) (t : Tally M)
      → IsCounted t.per_tool_total t.confusion
      → (let u = ask_goals provider tools goals t in IsCounted u.per_tool_total u.confusion)
  unfolding ask_goals
  ask_goals-IsCounted tools [] t h = h
  ask_goals-IsCounted tools ((goal, golden) ∷ rest) t h =
      ask_goals-IsCounted tools rest _
        (IsCounted-count_choice golden (provider.choose_tool t.models goal tools false) t h)
