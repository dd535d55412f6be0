-- ===== src/Base/Json/Equality.antt =====
-- Python's `==` on JSON values: numbers by value, objects whatever the order of their keys.
use mcp_probe.Base.{
  Bool, true, false, not, ◌&&◌, Option, none, some, length, str_eq, if◌then◌else◌, ◌==◌,
}
use mcp_probe.Base.Ratio
use mcp_probe.Base.Ratio.{Signed, whole}
use mcp_probe.Base.Json.{
  Json, Items, Fields, null, bool, int, float, str, arr, obj, nil, cons, end, field, fields,
  find_field,
}

-- The number that a Boolean, an integer or a float stands for.
abbrev number : Json → Option Signed
number (bool b) = some (record { negative = false; size = whole (if b then 1 else 0) })
number (int s n) = some (record { negative = s; size = whole n })
number (float x) = some x
number _ = none

abbrev same_number : Option Signed → Option Signed → Bool
same_number (some x) (some y) =
    if x.size.num == 0
    then y.size.num == 0
    else (if x.negative then y.negative else not y.negative) && Ratio.eqb x.size y.size
same_number _ _ = false

unfoldable mutual
  pub json_eq : Json → Json → Bool
  json_eq null y = elim y [ null ↦ true | _ ↦ false ]
  json_eq (bool b) y = same_number (number (bool b)) (number y)
  json_eq (int s n) y = same_number (number (int s n)) (number y)
  json_eq (float x) y = same_number (number (float x)) (number y)
  json_eq (str s) y = elim y [ str t ↦ str_eq s t | _ ↦ false ]
  json_eq (arr xs) y = elim y [ arr ys ↦ items_eq xs ys | _ ↦ false ]
  json_eq (obj fs) y = elim y [
    | obj gs ↦ (length (fields fs) == length (fields gs)) && fields_in fs gs
    | _ ↦ false
  ]

  pub items_eq : Items → Items → Bool
  items_eq nil ys = elim ys [ nil ↦ true | _ ↦ false ]
  items_eq (cons x xs) ys = elim ys [ nil ↦ false | cons y ys' ↦ json_eq x y && items_eq xs ys' ]

  pub fields_in : Fields → Fields → Bool
  fields_in end gs = true
  fields_in (field k v fs) gs = elim (find_field k gs) [
    | none ↦ false
    | some w ↦ json_eq v w && fields_in fs gs
  ]
