-- ===== src/Legibility/Model.antt =====
-- src/mcp_quality/legibility/model.py: a model's reply as a tool's name.
-- The providers' answers are what the state of the model gives; the texts are code points.
use mcp_probe.Base.{
  String, List, ℕ, Bool, Option, if◌then◌else◌, join, true, has_prefix, map, ◌∷◌, some, find?, elem,
  [], none, false, inl, inr, ◌<>◌, ◌||◌, ◌&&◌, ◌≡◌, codes_eq, arith, ◌⊎◌, codes, Bool-cases,
  str_eq_refl, Option-cases, str_eq_iff, refl,
}
use mcp_probe.Base.Regex.{
  Wide, Regex, text, seq, any_of, optional, boundary, matches_in, strip_blank,
}

-- `_CHOOSE_PROMPT` and `_CHOOSE_PROMPT_NONE`, filled in
unfoldable pub prompt_for : String → String → Bool → String
prompt_for goal listing allow_none =
    if allow_none
    then "You are an agent deciding which tool, if any, accomplishes a goal.\nGoal: " <> goal
      <> "\n\nTools:\n" <> listing
      <> "\n\nReply with ONLY the exact name of the single best tool, or exactly NONE if no tool fits."
    else "You are an agent choosing exactly one tool to accomplish a goal.\nGoal: " <> goal
      <> "\n\nTools:\n" <> listing <> "\n\nReply with ONLY the exact name of the single best tool."

-- `"\n".join(f"- {n}: {d}" for n, d in tools)`
unfoldable pub listing : List (String × String) → String
listing tools = join "\n" (map (λ (t : String × String). "- " <> t.0 <> ": " <> t.1) tools)

-- `^(none|no tool|nothing|n/?a)\b`
unfoldable pub decline : Regex
decline = seq (
    any_of (text true "none") (
      text true "no tool"
      ∷ text true "nothing"
      ∷ seq (text true "n" ∷ optional (text true "/") ∷ text true "a" ∷ [])
      ∷ [])
    ∷ boundary
    ∷ [])

-- `n in reply`
unfoldable pub contains : List ℕ → List ℕ → Bool
contains word [] = has_prefix word []
contains word (c ∷ cs) = let rest = contains word cs in has_prefix word (c ∷ cs) || rest

abbrev pub names_of : List (String × String) → List String
names_of tools = map (λ (t : String × String). t.0) tools

-- `"" if allow_none else (names[0] if names else "")`
abbrev pub unmatched : Bool → List String → String
unmatched true names = ""
unmatched false [] = ""
unmatched false (n ∷ names) = n

-- What `find?` found, else another text
abbrev pub or_text : Option String → String → String
or_text none other = other
or_text (some s) other = s

module _ (wide : Wide) where
  -- `_match_name`
  unfoldable pub match_name : List ℕ → List (String × String) → Bool → String
  match_name answer tools allow_none =
      let reply = strip_blank wide answer in
      let names = names_of tools in
      if allow_none && matches_in wide decline reply
      then ""
      else or_text (find? (λ n. codes_eq (codes n) reply) names)
          (or_text (find? (λ n. contains (codes n) reply) names) (unmatched allow_none names))

find?-elem :
    (p : String → Bool) (names : List String) (n : String)
    → find? p names ≡ some n
    → elem n names ≡ true
find?-elem p [] n h = absurd (ground arith)
find?-elem p (m ∷ names) n h = elim (Bool-cases (p m)) [
  | inl hit ↦ let same : m ≡ n = ground arith in ground (arith, str_eq_iff n m, same)
  | inr miss ↦ ground (arith, find?-elem p names n (rw miss at h))
]

unmatched-elem :
    (allow_none : Bool) (names : List String)
    → (elem (unmatched allow_none names) names ≡ true) ⊎ (unmatched allow_none names ≡ "")
unmatched-elem true names = inr refl
unmatched-elem false [] = inr refl
unmatched-elem false (n ∷ names) = inl (ground (arith, str_eq_refl n))

or_text-elem :
    (p : String → Bool) (names : List String) (other : String)
    → (elem other names ≡ true) ⊎ (other ≡ "")
    → (elem (or_text (find? p names) other) names ≡ true) ⊎ (or_text (find? p names) other ≡ "")
or_text-elem p names other h = elim (Option-cases (find? p names)) [
  | inl none_found ↦ rw none_found h
  | inr (n, hit) ↦ rw hit (inl (find?-elem p names n hit))
]

-- Whatever a model answers, the choice is the name of a listed tool or no tool.
match_name-elem :
    (wide : Wide) (answer : List ℕ) (tools : List (String × String)) (allow_none : Bool)
    → (elem (match_name wide answer tools allow_none) (names_of tools) ≡ true)
      ⊎ (match_name wide answer tools allow_none ≡ "")
unfolding match_name
match_name-elem wide answer tools allow_none =
    elim (Bool-cases (allow_none && matches_in wide decline (strip_blank wide answer))) [
      | inl declined ↦ inr (rw declined refl)
      | inr asks ↦ rw asks (
          or_text-elem _ (names_of tools) _
            (or_text-elem _ (names_of tools) _ (unmatched-elem allow_none (names_of tools))))
    ]
