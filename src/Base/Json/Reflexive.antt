-- ===== src/Base/Json/Reflexive.antt =====
-- A JSON value equals itself, if no object in it repeats a key (as none does that Python holds).
use mcp_probe.Base.{String, ◌≡◌, str_eq_refl, none, some, true, arith, str_eq_iff, refl}
use mcp_probe.Base.Json.{
  Json, Items, Fields, null, bool, int, float, str, arr, obj, nil, cons, end, field, find_field,
}
use mcp_probe.Base.Json.Equality.{json_eq, items_eq, fields_in}

abbrev mutual
  pub IsDict : Json → Type 0
  IsDict null = Unit
  IsDict (bool b) = Unit
  IsDict (int s n) = Unit
  IsDict (float x) = Unit
  IsDict (str s) = Unit
  IsDict (arr xs) = AreDicts xs
  IsDict (obj fs) = HasDistinct fs

  pub AreDicts : Items → Type 0
  AreDicts nil = Unit
  AreDicts (cons x xs) = IsDict x × AreDicts xs

  pub HasDistinct : Fields → Type 0
  HasDistinct end = Unit
  HasDistinct (field k v fs) = (find_field k fs ≡ none) × IsDict v × HasDistinct fs

-- Every field of the one is what the other finds under its key.
abbrev FoundIn : Fields → Fields → Type 0
FoundIn end gs = Unit
FoundIn (field k v fs) gs = (find_field k gs ≡ some v) × FoundIn fs gs

FoundIn-field :
    (k : String) (v : Json) (fs gs : Fields)
    → find_field k fs ≡ none
    → FoundIn fs gs
    → FoundIn fs (field k v gs)
FoundIn-field k v end gs h f = tt
FoundIn-field k v (field j w fs) gs h f = (
  ground (arith, f.0, str_eq_iff j k, str_eq_iff k j),
  FoundIn-field k v fs gs (ground arith) f.1,
)

FoundIn-refl : (fs : Fields) → HasDistinct fs → FoundIn fs fs
FoundIn-refl end h = tt
FoundIn-refl (field k v fs) h =
    (rw (str_eq_refl k), FoundIn-field k v fs fs h.0 (FoundIn-refl fs h.2))

mutual
  unfolding json_eq

  json_refl : (x : Json) → IsDict x → json_eq x x ≡ true
  json_refl null h = refl
  json_refl (bool b) h = ground arith
  json_refl (int s n) h = ground arith
  json_refl (float x) h = ground arith
  json_refl (str s) h = str_eq_refl s
  json_refl (arr xs) h = items_refl xs h
  json_refl (obj fs) h = ground (arith, fields_in-found fs fs h (FoundIn-refl fs h))

  items_refl : (xs : Items) → AreDicts xs → items_eq xs xs ≡ true
  items_refl nil h = refl
  items_refl (cons x xs) h = ground (arith, json_refl x h.0, items_refl xs h.1)

  fields_in-found : (fs gs : Fields) → HasDistinct fs → FoundIn fs gs → fields_in fs gs ≡ true
  fields_in-found end gs h f = refl
  fields_in-found (field k v fs) gs h f =
      ground (arith, f.0, json_refl v h.1, fields_in-found fs gs h.2 f.1)

pub json_eq_refl : (x : Json) → IsDict x → json_eq x x ≡ true
json_eq_refl x h = json_refl x h
