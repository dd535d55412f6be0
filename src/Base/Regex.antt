-- ===== src/Base/Regex.antt =====
-- Python's `re` on code points: a backtracking matcher with ordered alternatives and greedy repeats.
-- The word, space and digit characters beyond ASCII are a parameter (Python's Unicode tables).
use mcp_probe.Base.Texts.{codes, is_space, lower_code}
use mcp_probe.Base.Lists.{length, take}
use Prim.Native.Nat.{suc, zero, ◌-◌}
use mcp_probe.Base.Tests.{if◌then◌else◌, leb, ltb, is_some, ◌==◌}
use Prim.Native.String.{String}
use mathlib.Core.List.{List, [], ◌∷◌, reverse, map}
use mathlib.Core.Option.{Option, none, some}
use mathlib.Core.Bool.{Bool, not, true, false, ◌||◌, ◌&&◌}
use mcp_probe.Base.{ℕ}

pub record Wide : Type 0 where
  pub word : ℕ → Bool
  pub space : ℕ → Bool
  pub digit : ℕ → Bool

-- A pattern. `one` is a literal or a class, `boundary` is `\b`, `ends` is `$`.
pub data Regex : Type 0 where
  empty : Regex
  one : (ℕ → Bool) → Regex
  then_ : Regex → Regex → Regex
  either : Regex → Regex → Regex
  many : Regex → Regex
  boundary : Regex
  starts : Regex
  ends : Regex

-- Where a match stands: the code point before, if any, and the text from here on.
pub record Cursor : Type 0 where
  pub before : Option ℕ
  pub rest : List ℕ

abbrev pub or_else {ℓ} : {A : Type ℓ} → Option A → Option A → Option A
or_else (some a) o = some a
or_else none o = o

-- What follows a match, and has its result.
abbrev Next : Type 0
Next = Cursor → Option (List ℕ)

-- `\w`, `\s` and `\d`
unfoldable pub is_word : Wide → ℕ → Bool
is_word wide c =
    if leb 128 c
    then wide.word c
    else (leb 48 c && leb c 57) || (leb 65 c && leb c 90) || (leb 97 c && leb c 122) || (c == 95)

unfoldable pub is_blank : Wide → ℕ → Bool
is_blank wide c = if leb 128 c then wide.space c else is_space c

unfoldable pub is_digit : Wide → ℕ → Bool
is_digit wide c = if leb 128 c then wide.digit c else leb 48 c && leb c 57

abbrev word_before : Wide → Option ℕ → Bool
word_before wide none = false
word_before wide (some c) = is_word wide c

abbrev word_after : Wide → List ℕ → Bool
word_after wide [] = false
word_after wide (c ∷ cs) = is_word wide c

-- `$` without the multiline flag: the end, or before a final newline
abbrev pub at_end : List ℕ → Bool
at_end [] = true
at_end (c ∷ []) = c == 10
at_end (c ∷ _ ∷ _) = false

abbrev step_one : (ℕ → Bool) → Option ℕ → List ℕ → Next → Option (List ℕ)
step_one accepts before [] next = none
step_one accepts before (c ∷ cs) next =
    if accepts c then next (record { before = some c; rest = cs }) else none

-- A greedy repeat of a step that must move on: as often as it can, and less often if that fails.
-- The rounds are bounded by the length of the text, as each takes a code point.
unfoldable pub repeat : ℕ → (Cursor → Next → Option (List ℕ)) → Cursor → Next → Option (List ℕ)
repeat zero step here next = next here
repeat (suc rounds) step here next =
    or_else
      (step here (λ there.
        if ltb (length there.rest) (length here.rest) then repeat rounds step there next else none))
      (next here)

module _ (wide : Wide) where
  -- A match of the pattern at the cursor, followed by what comes next.
  unfoldable pub run : Regex → Cursor → Next → Option (List ℕ)
  unfolding repeat
  run empty here next = next here
  run (one accepts) here next = step_one accepts here.before here.rest next
  run (then_ r s) here next = run r here (λ there. run s there next)
  run (either r s) here next = or_else (run r here next) (run s here next)
  run (many r) here next = repeat (length here.rest) (run r) here next
  run boundary here next =
      if (word_before wide here.before && not (word_after wide here.rest))
        || (not (word_before wide here.before) && word_after wide here.rest)
      then next here
      else none
  run starts here next = elim here.before [ none ↦ next here | some c ↦ none ]
  run ends here next = if at_end here.rest then next here else none

  -- `pattern.match(text)` from the cursor: the text behind the match
  unfoldable pub match_at : Regex → Cursor → Option (List ℕ)
  unfolding run
  match_at r here = run r here (λ there. some there.rest)

  -- `pattern.search(text)`: the text that is matched
  unfoldable pub search_from : Regex → Option ℕ → List ℕ → Option (List ℕ)
  unfolding match_at
  search_from r before [] = elim (match_at r (record { before = before; rest = [] })) [
    | none ↦ none
    | some _ ↦ some []
  ]
  search_from r before (c ∷ cs) = elim (match_at r (record { before = before; rest = c ∷ cs })) [
    | some rest ↦ some (take (length (c ∷ cs) - length rest) (c ∷ cs))
    | none ↦ search_from r (some c) cs
  ]

  abbrev pub search : Regex → List ℕ → Option (List ℕ)
  search r cs = search_from r none cs

  -- `bool(pattern.search(text))` and `bool(pattern.match(text))`
  abbrev pub found_in : Regex → List ℕ → Bool
  found_in r cs = is_some (search r cs)

  abbrev pub found : Regex → String → Bool
  found r s = found_in r (codes s)

  abbrev pub matches_in : Regex → List ℕ → Bool
  matches_in r cs = is_some (match_at r (record { before = none; rest = cs }))

abbrev drop_blank : Wide → List ℕ → List ℕ
drop_blank wide [] = []
drop_blank wide (c ∷ cs) = if is_blank wide c then drop_blank wide cs else c ∷ cs

-- `text.strip()`
unfoldable pub strip_blank : Wide → List ℕ → List ℕ
strip_blank wide cs = reverse (drop_blank wide (reverse (drop_blank wide cs)))

-- The lower-case letter that a code point stands for under `re.I`.
abbrev pub fold_code : ℕ → ℕ
fold_code c =
    if (c == 304) || (c == 305)
    then 105
    else if c == 383
    then 115
    else if c == 8490
    then 107
    else lower_code c

-- The forms that the program's patterns use. The flag is `re.I`.
abbrev pub lit : Bool → ℕ → Regex
lit fold p = one (λ c. if fold then fold_code c == fold_code p else c == p)

abbrev word_codes : Bool → List ℕ → Regex
word_codes fold [] = empty
word_codes fold (c ∷ []) = lit fold c
word_codes fold (c ∷ d ∷ cs) = then_ (lit fold c) (word_codes fold (d ∷ cs))

-- A literal text, a sequence, and alternatives in their order.
abbrev pub text : Bool → String → Regex
text fold s = word_codes fold (codes s)

abbrev pub seq : List Regex → Regex
seq [] = empty
seq (r ∷ []) = r
seq (r ∷ s ∷ rs) = then_ r (seq (s ∷ rs))

abbrev pub any_of : Regex → List Regex → Regex
any_of r [] = r
any_of r (s ∷ rs) = either r (any_of s rs)

abbrev pub texts : Bool → String → List String → Regex
texts fold s [] = text fold s
texts fold s (t ∷ ts) = either (text fold s) (texts fold t ts)

-- `r?`, `r+`, and `r` at least `n` times
abbrev pub optional : Regex → Regex
optional r = either r empty

abbrev pub some_of : Regex → Regex
some_of r = then_ r (many r)

abbrev pub times : ℕ → Regex → Regex
times zero r = empty
times (suc n) r = then_ r (times n r)

-- `.`, and a class of code points between bounds
abbrev pub dot : Regex
dot = one (λ c. not (c == 10))

abbrev pub in_range : ℕ → ℕ → ℕ → Bool
in_range lo hi c = leb lo c && leb c hi

-- `[A-Za-z_]`, under `re.I` with the signs that fold to a letter
abbrev pub letter_or_underscore : Bool → Regex
letter_or_underscore fold = one (λ c.
    let d = if fold then fold_code c else c in in_range 65 90 d || in_range 97 122 d || (d == 95))

-- `text.lower()`, of the code points that can come out as ASCII
abbrev pub lower_text : List ℕ → List ℕ
lower_text cs = map (λ c. if c == 8490 then 107 else lower_code c) cs
