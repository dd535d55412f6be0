-- ===== src/Base/Json.antt =====
-- JSON values as Python reads and writes them.
pub mod Equality
pub mod Reflexive
pub mod Typed
use Prim.Native.Nat.{ℕ}
use Prim.Native.String.{String}
use mathlib.Core.Bool.{Bool, true, false, not}
use mathlib.Core.List.{List, [], ◌∷◌, map}
use mathlib.Core.Option.{Option, none, some}
use mcp_probe.Base.Tests.{◌==◌, if◌then◌else◌}
use mcp_probe.Base.Texts.{str_eq, str_empty}
use mcp_probe.Base.Ratio.{Signed, Ratio}

mutual
  pub data Json : Type 0 where
    null : Json
    bool : Bool → Json
    int : Bool → ℕ → Json
    float : Signed → Json
    str : String → Json
    arr : Items → Json
    obj : Fields → Json

  pub data Items : Type 0 where
    nil : Items
    cons : Json → Items → Items

  pub data Fields : Type 0 where
    end : Fields
    field : String → Json → Fields → Fields

abbrev pub nat : ℕ → Json
nat n = int false n

abbrev pub items : Items → List Json
items nil = []
items (cons x xs) = x ∷ items xs

abbrev pub of_items : List Json → Items
of_items [] = nil
of_items (x ∷ xs) = cons x (of_items xs)

abbrev pub fields : Fields → List (String × Json)
fields end = []
fields (field k v fs) = (k, v) ∷ fields fs

abbrev pub of_fields : List (String × Json) → Fields
of_fields [] = end
of_fields ((k, v) ∷ fs) = field k v (of_fields fs)

abbrev pub find_field : String → Fields → Option Json
find_field k end = none
find_field k (field j v fs) = if str_eq j k then some v else find_field k fs

-- `d.get(k)` on an object, `none` where the value is no object
abbrev pub get_key : String → Json → Option Json
get_key k (obj fs) = find_field k fs
get_key k _ = none

abbrev pub is_object : Json → Bool
is_object (obj fs) = true
is_object _ = false

-- `bool(x)`
abbrev pub truthy : Json → Bool
truthy null = false
truthy (bool b) = b
truthy (int s n) = not (n == 0)
truthy (float x) = not (x.size.num == 0)
truthy (str s) = not (str_empty s)
truthy (arr nil) = false
truthy (arr (cons x xs)) = true
truthy (obj end) = false
truthy (obj (field k v fs)) = true

-- `bool(d.get(k))`
abbrev pub truthy? : Option Json → Bool
truthy? none = false
truthy? (some x) = truthy x

-- `x is True`
abbrev pub is_true : Option Json → Bool
is_true (some (bool b)) = b
is_true _ = false

-- `x is False`
abbrev pub is_false : Option Json → Bool
is_false (some (bool b)) = not b
is_false _ = false

-- `x == s` for a text `s`
abbrev pub is_text : String → Option Json → Bool
is_text s (some (str t)) = str_eq t s
is_text s _ = false

abbrev pub strs : List String → Json
strs xs = arr (of_items (map str xs))

-- A non-negative `float`
abbrev pub ratio_json : Ratio → Json
ratio_json r = float (record { negative = false; size = r })
