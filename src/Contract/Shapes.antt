-- ===== src/Contract/Shapes.antt =====
-- src/mcp_quality/contract/schema.py: what a schema asks `synthesize_args` for, with the values of
-- the plain types. The digest is a parameter: the number that the first eight hexadecimal digits of
-- a text's SHA-256 write. A value of a type that a schema excludes where it stands is an exception:
-- `none`.
use mcp_probe.Base.Json.{
  null, ratio_json, float, int, cons, items, str, truthy?, find_field, truthy, is_text, arr, nat,
  bool, Fields, Json,
}
use mcp_probe.Base.{
  true, false, zero, suc, [], none, some, ◌==◌, max, not, codes, is_some, find?, get_elem?, length,
  ◌||◌, ltb, ◌/◌, ◌+◌, ◌∷◌, ◌%◌, option_or, ◌-◌, show_nat, if◌then◌else◌, ◌<>◌, Bool, Option, ℕ,
  List, ◌>>=◌, String,
}
use mcp_probe.Base.Ratio
use mcp_probe.Base.Ratio.{Ratio, Signed, whole}

-- What a schema asks for: a value, the first schema of a combiner, an object, or a list
pub data Shape : Type 0 where
  fixed : Json → Shape
  combined : String → Shape
  object : Shape
  array : ℕ → Shape

abbrev hex_digit : ℕ → String
hex_digit d =
    if ltb d 10
    then show_nat d
    else option_or (get_elem? ("a" ∷ "b" ∷ "c" ∷ "d" ∷ "e" ∷ "f" ∷ []) (d - 10)) ""

-- `f"{n:x}"` of a number below `16 ^ places`
unfoldable pub hex_text : ℕ → ℕ → String
hex_text zero n = ""
hex_text (suc places) n =
    let rest = hex_text places (n / 16) in
    if ltb n 16 then hex_digit n else rest <> hex_digit (n % 16)

-- The first six of at most eight digits
unfoldable pub token_text : ℕ → String
token_text n =
    hex_text 8 (if ltb n 16777216 then n else if ltb n 268435456 then n / 16 else n / 256)

abbrev pad : String → ℕ → String
pad c zero = ""
pad c (suc n) = c <> pad c n

-- `int(x)`, with its sign
abbrev int_of : Json → Option (Bool × ℕ)
int_of (bool b) = some (false, if b then 1 else 0)
int_of (int s n) = some (s, n)
int_of (float x) = some (x.negative, x.size.num / x.size.den)
int_of _ = none

-- `lo + d`
abbrev pub plus : Bool × ℕ → ℕ → Json
plus (false, n) d = nat (n + d)
plus (true, n) d = if ltb d n then int true (n - d) else nat (d - n)

abbrev float_of : Json → Option Signed
float_of (bool b) = some (record { negative = false; size = whole (if b then 1 else 0) })
float_of (int s n) = some (record { negative = s; size = whole n })
float_of (float x) = some x
float_of _ = none

abbrev plus_float : Signed → ℕ → Json
plus_float x d =
    if x.negative
    then (if Ratio.ltb (whole d) x.size
        then float (record { negative = true; size = Ratio.monus x.size (whole d) })
        else ratio_json (Ratio.monus (whole d) x.size))
    else ratio_json (Ratio.add x.size (whole d))

-- `int(x or default)`, at least 0
abbrev count_or : ℕ → Option Json → Option ℕ
count_or default none = some default
count_or default (some v) =
    if truthy v then (do n ← int_of v; some (if n.0 then 0 else n.1)) else some default

-- `next((t for t in typ if t != "null"), typ[0])`
abbrev first_type : List Json → Option Json
first_type [] = none
first_type (t ∷ ts) =
    some (option_or (find? (λ (u : Json). not (is_text "null" (some u))) (t ∷ ts)) t)

-- `typ`; a missing type is `None`
unfoldable pub declared_type : Option Json → Option Json
declared_type none = some null
declared_type (some (arr xs)) = first_type (items xs)
declared_type (some v) = some v

-- A value or a combiner that is there, else what the next tests say
abbrev or_fixed : Option Json → Option Shape → Option Shape
or_fixed none rest = rest
or_fixed (some v) rest = some (fixed v)

abbrev or_combined : Option String → Option Shape → Option Shape
or_combined none rest = rest
or_combined (some c) rest = some (combined c)

module _ (digest : String → ℕ) (seed : ℕ) where
  -- `_seed_int`
  unfoldable pub seed_int : String → ℕ
  seed_int salt = digest (show_nat seed <> ":" <> salt)

  -- `_synth_string`
  abbrev padded : String → ℕ → String
  padded base min_len = base <> pad "x" (min_len - length (codes base))

  abbrev formatted : Option Json → String → Option String
  formatted fmt token =
      if is_text "uri" fmt || is_text "url" fmt
      then some ("https://example.test/" <> token)
      else if is_text "email" fmt
      then some ("probe-" <> token <> "@example.test")
      else if is_text "date-time" fmt || is_text "datetime" fmt
      then some "2026-01-01T00:00:00Z"
      else if is_text "date" fmt
      then some "2026-01-01"
      else if is_text "uuid" fmt
      then some ("00000000-0000-4000-8000-" <> pad "0" (12 - length (codes token)) <> token)
      else none

  unfoldable pub synth_string : Fields → String → Option Json
  synth_string fs path =
      let token = token_text (seed_int path) in
      let plain = (do
        min_len ← count_or 0 (find_field "minLength" fs)
        some (str (padded ("probe-" <> token) min_len))) in
      elim (formatted (find_field "format" fs) token) [ none ↦ plain | some text ↦ some (str text) ]

  -- `schema.get("minimum", schema.get("exclusiveMinimum", 1))`
  abbrev pub low_of : Fields → Json
  low_of fs =
      option_or (find_field "minimum" fs) (option_or (find_field "exclusiveMinimum" fs) (nat 1))

  unfoldable pub integer_value : Fields → String → Option Json
  integer_value fs path = do lo ← int_of (low_of fs); some (plus lo (seed_int path % 5))

  unfoldable pub number_value : Fields → String → Option Json
  number_value fs path = do
    lo ← float_of (option_or (find_field "minimum" fs) (nat 1))
    some (plus_float lo (seed_int path % 5))

  abbrev value_shape : Option Json → Option Shape
  value_shape made = made >>= (λ v. some (fixed v))

  -- The tests of the type
  unfoldable pub typed_shape : Fields → String → Json → Option Shape
  typed_shape fs path typ =
      if is_text "object" (some typ) || is_some (find_field "properties" fs)
      then some object
      else if is_text "array" (some typ)
      then count_or 1 (find_field "minItems" fs) >>= (λ n. some (array (max 1 n)))
      else value_shape (
          if is_text "integer" (some typ)
          then integer_value fs path
          else if is_text "number" (some typ)
          then number_value fs path
          else if is_text "boolean" (some typ)
          then some (bool (seed_int path % 2 == 1))
          else if is_text "null" (some typ)
          then some null
          else synth_string fs path)

  -- `schema[combiner]`, where it is there and not empty
  unfoldable pub combiner_of : Fields → List String → Option String
  combiner_of fs [] = none
  combiner_of fs (c ∷ cs) = if truthy? (find_field c fs) then some c else combiner_of fs cs

  -- `schema["enum"][idx]` of a list that is not empty
  unfoldable pub enum_value : Option Json → String → Option Json
  enum_value (some (arr (cons x xs))) path =
      get_elem? (items (cons x xs)) (seed_int (path <> "enum") % length (items (cons x xs)))
  enum_value _ path = none

  -- What the schema asks for, in the order of the tests
  unfoldable pub shape_of : Fields → String → Option Shape
  shape_of fs path = or_fixed (find_field "const" fs) (
      or_fixed (find_field "default" fs) (
        or_fixed (enum_value (find_field "enum" fs) path) (
          or_combined (combiner_of fs ("anyOf" ∷ "oneOf" ∷ "allOf" ∷ []))
            (declared_type (find_field "type" fs) >>= typed_shape fs path))))
