-- ===== src/Base/Texts.antt =====
-- Python strings: the native texts where they are compared and joined, their code points where a
-- program walks them.
use native.Mathlib.Omega.{arith}
use Prim.Native.Nat.{ℕ, zero, suc, ◌+◌, ◌-◌, ◌/◌, ◌%◌}
use Prim.Native.Char.{code}
use Prim.Native.String.{String, ◌++◌ as append}
use mathlib.Core.Path.{◌≡◌, refl}
use mathlib.Core.Bool.{Bool, true, false, ◌&&◌, ◌||◌}
use mathlib.Core.List.{List, [], ◌∷◌, reverse}
use mathlib.Core.Option.{Option, none, some}
use text.Mathlib.TextEquality.{eq_iff as text_eq_iff}
use text.Mathlib.Text.{◌==◌ as text_eq}
use text.Mathlib.TextPositions.{eq_refl}
use mcp_probe.Base.Tests.{ltb, leb, ◌==◌, if◌then◌else◌, Bool-cases}
use mcp_probe.Base.Lists.{any, filter}
use mathlib.Core.Logic.{◌↔◌, inl, inr}

-- `a == b` on texts
abbrev pub str_eq : String → String → Bool
str_eq = text_eq

pub str_eq_iff : (a b : String) → (str_eq a b ≡ true) ↔ (a ≡ b)
str_eq_iff = text_eq_iff

pub str_eq_refl : (a : String) → str_eq a a ≡ true
str_eq_refl a = eq_refl a

infixr 65 ◌<>◌
-- `a + b` on texts, and the pieces of an f-string
abbrev pub ◌<>◌ : String → String → String
a <> b = append a b

-- `not s`
abbrev pub str_empty : String → Bool
str_empty s = str_eq s ""

-- `s in xs`
abbrev pub elem : String → List String → Bool
elem s xs = any (str_eq s) xs

-- `s or ""` on an optional text
abbrev pub text_or_empty : Option String → String
text_or_empty none = ""
text_or_empty (some s) = s

-- `sep.join(xs)`
abbrev pub join : String → List String → String
join sep [] = ""
join sep (x ∷ []) = x
join sep (x ∷ y ∷ ys) = x <> sep <> join sep (y ∷ ys)

-- The code points of a text.
abbrev pub codes : String → List ℕ
codes String.[] = []
codes (String.◌∷◌ c s) = code c ∷ codes s

-- The order of Python's texts: by code points, a prefix first.
abbrev pub codes_leb : List ℕ → List ℕ → Bool
codes_leb [] bs = true
codes_leb (a ∷ as') [] = false
codes_leb (a ∷ as') (b ∷ bs) = ltb a b || (a == b && codes_leb as' bs)

-- `a <= b` on texts
abbrev pub str_leb : String → String → Bool
str_leb a b = codes_leb (codes a) (codes b)

-- `a == b` on code points
abbrev pub codes_eq : List ℕ → List ℕ → Bool
codes_eq [] [] = true
codes_eq (a ∷ as') (b ∷ bs) = (a == b) && codes_eq as' bs
codes_eq _ _ = false

-- `ch.upper()` and `ch.lower()` on the ASCII letters; other code points are left as they are
abbrev pub upper_code : ℕ → ℕ
upper_code c = if leb b'a' c && leb c b'z' then c - 32 else c

abbrev pub lower_code : ℕ → ℕ
lower_code c = if leb b'A' c && leb c b'Z' then c + 32 else c

-- `ch.isspace()` on ASCII
abbrev pub is_space : ℕ → Bool
is_space c = (c == 32) || (leb 9 c && leb c 13) || (leb 28 c && leb c 31)

abbrev pub strip_left : List ℕ → List ℕ
strip_left [] = []
strip_left (c ∷ cs) = if is_space c then strip_left cs else c ∷ cs

-- `s.strip()`
abbrev pub strip : List ℕ → List ℕ
strip cs = reverse (strip_left (reverse (strip_left cs)))

-- `text.startswith(prefix)` on code points
abbrev pub has_prefix : List ℕ → List ℕ → Bool
has_prefix [] cs = true
has_prefix (p ∷ ps) [] = false
has_prefix (p ∷ ps) (c ∷ cs) = (p == c) && has_prefix ps cs

abbrev digit : ℕ → String
digit n =
    if n == 0
    then "0"
    else if n == 1
    then "1"
    else if n == 2
    then "2"
    else if n == 3
    then "3"
    else if n == 4
    then "4"
    else if n == 5
    then "5"
    else if n == 6
    then "6"
    else if n == 7
    then "7"
    else if n == 8
    then "8"
    else "9"

digits_from : ℕ → ℕ → String → String
digits_from zero n acc = acc
digits_from (suc f) n acc =
    let rest = digits_from f (n / 10) (digit (n % 10) <> acc) in
    if n / 10 == 0 then digit (n % 10) <> acc else rest

-- `str(n)` in decimal; `n + 1` rounds are enough, since each divides by ten
unfoldable pub show_nat : ℕ → String
unfolding digits_from
show_nat n = digits_from (suc n) n ""

-- What a filter on texts keeps.
pub elem-filter :
    (s : String) (p : String → Bool) (xs : List String) → elem s (filter p xs) ≡ (p s && elem s xs)
elem-filter s p [] = ground arith
elem-filter s p (x ∷ xs) = elim (Bool-cases (str_eq s x)) [
  | inl same ↦ rw (← (str_eq_iff s x).0 same) (ground (arith, elem-filter s p xs, str_eq_refl s))
  | inr other ↦ ground (arith, elem-filter s p xs)
]

-- A test that holds of a listed text holds of some listed text.
pub any_of_elem :
    (s : String) (p : String → Bool) (xs : List String)
    → elem s xs ≡ true
    → p s ≡ true
    → any p xs ≡ true
any_of_elem s p [] h k = cc
any_of_elem s p (x ∷ xs) h k = elim (Bool-cases (str_eq s x)) [
  | inl same ↦ rw (← (str_eq_iff s x).0 same) (rw k refl)
  | inr other ↦ ground (arith, any_of_elem s p xs)
]

-- A test that fails on every listed text fails on the list.
pub any-false :
    (p : String → Bool) (xs : List String)
    → ((s : String) → elem s xs ≡ true → p s ≡ false)
    → any p xs ≡ false
any-false p [] h = refl
any-false p (x ∷ xs) h =
    let head : p x ≡ false = h x (rw (str_eq_refl x)) in
    rw head (any-false p xs (λ s k. h s (rw k (ground arith))))
