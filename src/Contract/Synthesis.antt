-- ===== src/Contract/Synthesis.antt =====
-- src/mcp_quality/contract/schema.py: `synthesize_args`, over the shapes of the schemas.
pub mod Covers
use mcp_probe.Base.Json.{
  nil, end, null, field, Items, float, int, cons, of_items, str, arr, bool, Fields, obj, Json,
}
use mcp_probe.Base.{
  true, false, zero, suc, [], none, some, str_eq, ◌∷◌, traverse, show_nat, ◌<>◌, Bool, Option, ℕ,
  List, ◌>>=◌, String,
}
use mcp_probe.Base.Ratio
use mcp_probe.Base.Ratio.{Ratio}
use mcp_probe.Contract.Shapes.{Shape, fixed, combined, object, array, shape_of, synth_string}

-- The value of the key that is looked for, else what the later keys say
abbrev here_or : {A : Type 0} → Bool → (String → Option A) → (String → Option A) → String → Option A
here_or true here later path = here path
here_or false here later path = later path

module _ (digest : String → ℕ) (seed : ℕ) where
  -- `range(n)`
  abbrev numbers : ℕ → ℕ → List ℕ
  numbers i zero = []
  numbers i (suc n) = i ∷ numbers (suc i) n

  -- The value of a shape, from the values of the schemas inside
  unfoldable pub assemble :
      (String → Option Json)
      → (String → String → Option Json)
      → (String → Option Fields)
      → String
      → Option Shape
      → Option Json
  assemble inner first properties path none = none
  assemble inner first properties path (some (fixed v)) = some v
  assemble inner first properties path (some (combined c)) = first c (path <> c)
  assemble inner first properties path (some object) = do gs ← properties path; some (obj gs)
  assemble inner first properties path (some (array n)) = do
    values ← traverse (λ (i : ℕ). inner (path <> "[" <> show_nat i <> "]")) (numbers 0 n)
    some (arr (of_items values))

  -- `synthesize_args` of a schema, of the first schema of a list, of each property, and of the
  -- values of the keys `items`, `properties` and a combiner
  unfoldable mutual
    pub synthesize_args : Json → String → Option Json
    synthesize_args (obj fs) path =
        assemble (inner_of fs) (λ c. first_of c fs) (synthesize_properties fs) path
          (shape_of digest seed fs path)
    synthesize_args null path = some null
    synthesize_args (bool b) path = some null
    synthesize_args (int s n) path = some null
    synthesize_args (float x) path = some null
    synthesize_args (str s) path = some null
    synthesize_args (arr xs) path = some null

    pub synthesize_first : Json → String → Option Json
    synthesize_first (arr xs) path = synthesize_head xs path
    synthesize_first (str s) path = some null
    synthesize_first null path = none
    synthesize_first (bool b) path = none
    synthesize_first (int s n) path = none
    synthesize_first (float x) path = none
    synthesize_first (obj fs) path = none

    pub synthesize_head : Items → String → Option Json
    synthesize_head nil path = none
    synthesize_head (cons x xs) path = synthesize_args x path

    pub synthesize_each : Json → String → Option Fields
    synthesize_each (obj fs) path = synthesize_fields fs path
    synthesize_each null path = none
    synthesize_each (bool b) path = none
    synthesize_each (int s n) path = none
    synthesize_each (float x) path = none
    synthesize_each (str s) path = none
    synthesize_each (arr xs) path = none

    pub synthesize_fields : Fields → String → Option Fields
    synthesize_fields end path = some end
    synthesize_fields (field k v fs) path = do
      made ← synthesize_args v (path <> "." <> k)
      rest ← synthesize_fields fs path
      some (field k made rest)

    pub inner_of : Fields → String → Option Json
    inner_of end path = synth_string digest seed end path
    inner_of (field k v fs) path = here_or (str_eq k "items") (synthesize_args v) (inner_of fs) path

    pub first_of : String → Fields → String → Option Json
    first_of c end path = none
    first_of c (field k v fs) path = here_or (str_eq k c) (synthesize_first v) (first_of c fs) path

    pub synthesize_properties : Fields → String → Option Fields
    synthesize_properties end path = some end
    synthesize_properties (field k v fs) path =
        here_or (str_eq k "properties") (synthesize_each v) (synthesize_properties fs) path
