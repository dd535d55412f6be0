-- ===== src/Contract/Synthesis/Covers.antt =====
-- src/mcp_quality/contract/schema.py: what a synthesized value covers.
use mcp_probe.Contract.Synthesis.{
  synthesize_each, synthesize_properties, synthesize_fields, assemble, synthesize_args,
}
use mcp_probe.Contract.Shapes.{
  combiner_of, object, enum_value, typed_shape, declared_type, shape_of,
}
use mcp_probe.Base.{
  refl, ◌∙◌, arith, sym, option_or, Option-cases, ap, ◌>>=◌, ◌<>◌, inr, inl, str_eq, Bool-cases,
  ◌≡◌, All, map, List, ℕ, [], ◌∷◌, some, none, String,
}
use mcp_probe.Base.Json.{null, obj, fields, find_field, Json, Fields, end, field}

abbrev pub names_in : Fields → List String
names_in fs = map (λ (f : String × Json). f.0) (fields fs)

-- The keys that take precedence over the type.
abbrev pub stronger_keys : List String
stronger_keys = "const" ∷ "default" ∷ "enum" ∷ "anyOf" ∷ "oneOf" ∷ "allOf" ∷ []

module _ (digest : String → ℕ) (seed : ℕ) where
  names-synthesize_fields :
      (props gs : Fields) (path : String)
      → synthesize_fields digest seed props path ≡ some gs
      → names_in gs ≡ names_in props
  unfolding synthesize_args
  names-synthesize_fields end gs path h = ap (λ o. names_in (option_or o end)) (sym h)
  names-synthesize_fields (field k v props) gs path h =
      elim (Option-cases (synthesize_args digest seed v (path <> "." <> k))) [
        | inl bad ↦ absurd (ground arith)
        | inr (made, good) ↦ elim (Option-cases (synthesize_fields digest seed props path)) [
          | inl bad ↦ absurd (ground arith)
          | inr (rest, fine) ↦
              ap (λ o. names_in (option_or o end)) (sym (rw (good, fine) at h))
              ∙ ap (λ l. k ∷ l) (names-synthesize_fields props rest path fine)
        ]
      ]

  synthesize_properties-found :
      (fs : Fields) (v : Json) (path : String)
      → find_field "properties" fs ≡ some v
      → synthesize_properties digest seed fs path ≡ synthesize_each digest seed v path
  unfolding synthesize_args
  synthesize_properties-found end v path h = absurd (cc)
  synthesize_properties-found (field k u fs) v path h = elim (Bool-cases (str_eq k "properties")) [
    | inl here ↦
        rw here (ap (λ o. synthesize_each digest seed (option_or o null) path) (rw here at h))
    | inr other ↦ rw other (synthesize_properties-found fs v path (rw other at h))
  ]

  typed_shape-object :
      (fs : Fields) (v typ : Json) (path : String)
      → find_field "properties" fs ≡ some v
      → typed_shape digest seed fs path typ ≡ some object
  unfolding typed_shape
  typed_shape-object fs v typ path h = ground arith

  shape_of-object :
      (fs : Fields) (v : Json) (path : String)
      → All (λ (k : String). find_field k fs ≡ none) stronger_keys
      → find_field "properties" fs ≡ some v
      → shape_of digest seed fs path ≡ (declared_type (find_field "type" fs) >>= (λ t. some object))
  unfolding shape_of enum_value combiner_of
  shape_of-object fs v path plain h =
      rw (plain.0, plain.1.0, plain.1.1.0, plain.1.1.1.0, plain.1.1.1.1.0, plain.1.1.1.1.1.0)
        (elim (Option-cases (declared_type (find_field "type" fs))) [
          | inl bad ↦ rw bad refl
          | inr (typ, good) ↦ rw good (typed_shape-object fs v typ path h)
        ])

  -- For a schema with properties, and without a constant, a default, choices or a combiner, the
  -- synthesized value is an object with exactly the declared properties, in their order, the optional
  -- ones included.
  pub synthesize_args-properties :
      (fs props : Fields) (path : String) (made : Json)
      → All (λ (k : String). find_field k fs ≡ none) stronger_keys
      → find_field "properties" fs ≡ some (obj props)
      → synthesize_args digest seed (obj fs) path ≡ some made
      → (gs : Fields) × (made ≡ obj gs) × (names_in gs ≡ names_in props)
  unfolding synthesize_args assemble
  synthesize_args-properties fs props path made plain h result =
      let shaped = rw (shape_of-object fs (obj props) path plain h) at result in
      elim (Option-cases (declared_type (find_field "type" fs))) [
        | inl bad ↦ absurd (cc (rw bad at shaped))
        | inr (typ, good) ↦ elim (Option-cases (synthesize_fields digest seed props path)) [
          | inl bad ↦
              absurd
                (cc (rw (good, synthesize_properties-found fs (obj props) path h, bad) at shaped))
          | inr (gs, fine) ↦ (
            gs,
            ap (λ o. option_or o null)
                (sym
                  (rw (good, synthesize_properties-found fs (obj props) path h, fine) at shaped)),
            names-synthesize_fields props gs path fine,
          )
        ]
      ]
