-- ===== src/Legibility/Similarity.antt =====
-- src/mcp_quality/legibility/similarity.py: the pairs of tools whose texts look alike.
-- The weights 0.75 and 0.25 are exact fractions here.
use mcp_probe.Base.{
  String, List, ℕ, Bool, leb, any, ◌∷◌, codes, if◌then◌else◌, text_or_empty, take, ◌&&◌, codes_eq,
  [], suc, is_empty, ◌++◌, ◌||◌, length, ◌+◌, ◌-◌,
}
use mcp_probe.Base.Ratio
use mcp_probe.Base.Ratio.{Ratio, ratio, whole}
use mcp_probe.Base.Regex.{lower_text}
use mcp_probe.Base.Sorting.{sort}
use mcp_probe.Models.{ToolDef, ServerSurface}

-- `[a-z0-9]`
abbrev is_token_code : ℕ → Bool
is_token_code c = (leb 97 c && leb c 122) || (leb 48 c && leb c 57)

abbrev in_tokens : List ℕ → List (List ℕ) → Bool
in_tokens w ws = any (codes_eq w) ws

-- A word that ends, put to the words found before, unless it is among them.
abbrev add_word : List ℕ → List (List ℕ) → List (List ℕ)
add_word [] ws = ws
add_word (c ∷ cs) ws = if in_tokens (c ∷ cs) ws then ws else (c ∷ cs) ∷ ws

-- `set(_WORD.findall(text))`, read from the right: the word that stands here, and those behind it
unfoldable pub words : List ℕ → List ℕ × List (List ℕ)
words [] = ([], [])
words (c ∷ cs) =
    let rest = words cs in
    if is_token_code c then (c ∷ rest.0, rest.1) else ([], add_word rest.0 rest.1)

-- `_tokens`
unfoldable pub tokens : String → List (List ℕ)
tokens text = let found = words (lower_text (codes text)) in add_word found.0 found.1

-- `len(a & b)` and `len(a | b)` of sets
abbrev pub common : List (List ℕ) → List (List ℕ) → ℕ
common [] b = 0
common (w ∷ a) b = if in_tokens w b then suc (common a b) else common a b

-- `_jaccard`
unfoldable pub jaccard : List (List ℕ) → List (List ℕ) → Ratio
jaccard a b =
    if is_empty a || is_empty b
    then whole 0
    else ratio (common a b) (length a + length b - common a b)

pub record Pair : Type 0 where
  pub first : String
  pub second : String
  pub similarity : Ratio

-- `0.75 * desc_sim + 0.25 * name_sim`
unfoldable pub similarity : ToolDef → ToolDef → Ratio
similarity a b =
    Ratio.add
      (Ratio.mul (ratio 3 4)
        (jaccard (tokens (text_or_empty a.description)) (tokens (text_or_empty b.description))))
      (Ratio.mul (ratio 1 4) (jaccard (tokens a.name) (tokens b.name)))

-- The inner loop, for one tool and those behind it
unfoldable pub pairs_with : Ratio → ToolDef → List ToolDef → List Pair
pairs_with threshold a [] = []
pairs_with threshold a (b ∷ bs) =
    let rest = pairs_with threshold a bs in
    if Ratio.leb threshold (similarity a b)
    then record { first = a.name; second = b.name; similarity = Ratio.round 1000 (similarity a b) }
      ∷ rest
    else rest

-- The outer loop
unfoldable pub all_pairs : Ratio → List ToolDef → List Pair
all_pairs threshold [] = []
all_pairs threshold (a ∷ rest) = pairs_with threshold a rest ++ all_pairs threshold rest

-- `confusable_shortlist` with its defaults
unfoldable pub confusable_shortlist : ServerSurface → List Pair
confusable_shortlist surface = take 10 (
    sort (λ (p q : Pair). Ratio.leb q.similarity p.similarity)
      (all_pairs (ratio 2 5) surface.tools))
