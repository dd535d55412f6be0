-- ===== src/Base/Ratio.antt =====
-- Non-negative numbers of the program (`float`) as exact fractions.
pub mod Laws
use mathlib.Core.List.{List, [], ◌∷◌}
use Prim.Native.Nat.{ℕ, zero, suc, ◌+◌, ◌-◌, ◌*◌, ◌/◌, ◌≤◌, ◌<◌}
use mathlib.Core.Bool.{Bool, true, false}
use mcp_probe.Base.Tests.{ltb as nat_ltb, leb as nat_leb, ◌==◌, if◌then◌else◌}

pub record Ratio : Type 0 where
  pub num : ℕ
  pub den : ℕ

abbrev pub IsRatio : Ratio → Type 0
IsRatio r = 0 < r.den

abbrev pub ratio : ℕ → ℕ → Ratio
ratio n d = record { num = n; den = d }

abbrev pub whole : ℕ → Ratio
whole n = ratio n 1

-- `a <= b`, `a < b`, `a == b`, by cross multiplication
abbrev pub leb : Ratio → Ratio → Bool
leb a b = nat_leb (a.num * b.den) (b.num * a.den)

abbrev pub ltb : Ratio → Ratio → Bool
ltb a b = nat_ltb (a.num * b.den) (b.num * a.den)

abbrev pub eqb : Ratio → Ratio → Bool
eqb a b = (a.num * b.den) == (b.num * a.den)

abbrev pub Le : Ratio → Ratio → Type 0
Le a b = a.num * b.den ≤ b.num * a.den

abbrev pub add : Ratio → Ratio → Ratio
add a b = ratio (a.num * b.den + b.num * a.den) (a.den * b.den)

-- `max(0.0, a - b)`
abbrev pub monus : Ratio → Ratio → Ratio
monus a b = ratio (a.num * b.den - b.num * a.den) (a.den * b.den)

abbrev pub mul : Ratio → Ratio → Ratio
mul a b = ratio (a.num * b.num) (a.den * b.den)

abbrev pub div : Ratio → Ratio → Ratio
div a b = ratio (a.num * b.den) (a.den * b.num)

abbrev pub min : Ratio → Ratio → Ratio
min a b = if leb a b then a else b

abbrev pub max : Ratio → Ratio → Ratio
max a b = if leb a b then b else a

abbrev pub pow : Ratio → ℕ → Ratio
pow r zero = whole 1
pow r (suc n) = mul r (pow r n)

-- `a - b` with its sign
pub record Signed : Type 0 where
  pub negative : Bool
  pub size : Ratio

abbrev pub diff : Ratio → Ratio → Signed
diff a b =
    if ltb a b
    then record { negative = true; size = monus b a }
    else record { negative = false; size = monus a b }

-- `round(r * unit)`: to the nearest whole number of `1 / unit`, a half to the even one
unfoldable pub round_units : ℕ → Ratio → ℕ
round_units unit r =
    let q = r.num * unit / r.den in
    let twice_rest = 2 * (r.num * unit - q * r.den) in
    if nat_ltb twice_rest r.den
    then q
    else if nat_ltb r.den twice_rest
    then q + 1
    else if (q - q / 2 * 2) == 0
    then q
    else q + 1

-- `round(r, k)` for `unit = 10 ^ k`
abbrev pub round : ℕ → Ratio → Ratio
round unit r = ratio (round_units unit r) unit

-- `sum(xs)`
abbrev pub sum : List Ratio → Ratio
sum [] = whole 0
sum (r ∷ rs) = add r (sum rs)
