-- ===== src/Config/Known.antt =====
-- src/mcp_quality/config.py: the environment and the file set fields only.
use mcp_probe.Base.{
  String, List, Option, Bool, Bool-cases, Option-cases, find?, is_some, ◌≡◌, some, true, any,
  is_some-find?, arith, ◌∷◌, [], none, inl, inr, str_eq, codes, str_eq_refl, ◌∙◌, refl, ℕ,
  has_prefix, subst,
}
use mcp_probe.Base.Dict.{Dict, insert, update, of_pairs}
use mcp_probe.Base.Regex.{Wide}
use mcp_probe.Base.Json.{Json, null, bool, int, float, str, arr, obj, fields}
use mcp_probe.Config.{
  Candidate, Field, from_env, from_file, underscored, keep_item, known, known_items, set_field,
  field_of, field_spelled, env_field, section, section_items, coerce, probe_fields,
}

find?-named :
    (p : Field → Bool) (xs : List Field) (f : Field)
    → find? p xs ≡ some f
    → any (λ (g : Field). str_eq g.name f.name) xs ≡ true
find?-named p [] f h = absurd (cc)
find?-named p (x ∷ xs) f h = elim (Bool-cases (p x)) [
  | inl hit ↦
      let same : some x ≡ some f = rw hit at h in
      let name : x.name ≡ f.name = cc same in ground (arith, name, str_eq_refl f.name)
  | inr miss ↦ ground (arith, find?-named p xs f (rw miss at h))
]

field_of-found :
    (p : Field → Bool) (f : Field)
    → find? p probe_fields ≡ some f
    → is_some (field_of f.name) ≡ true
unfolding field_of
field_of-found p f h =
    is_some-find? (λ (g : Field). str_eq g.name f.name) probe_fields
    ∙ find?-named p probe_fields f h

spelled-known :
    (cs : List ℕ) (f : Field) → field_spelled cs ≡ some f → is_some (field_of f.name) ≡ true
unfolding field_spelled
spelled-known cs f h = field_of-found _ f h

env_field-known :
    (key : String) (f : Field) → env_field key ≡ some f → is_some (field_of f.name) ≡ true
env_field-known key f h = elim (Bool-cases (has_prefix (codes "MCP_PROBE_") (codes key))) [
  | inl ours ↦ spelled-known _ f (rw ours at h)
  | inr other ↦ absurd (ground arith)
]

known-insert :
    (k : String) (v : Json) (d : Dict Json)
    → is_some (field_of k) ≡ true
    → known d ≡ true
    → known (insert k v d) ≡ true
unfolding insert
known-insert k v [] h g = ground arith
known-insert k v ((j, w) ∷ d) h g = elim (Bool-cases (str_eq j k)) [
  | inl hit ↦ rw hit g
  | inr miss ↦ rw miss (ground (arith, known-insert k v d))
]

pub known-update : (d e : Dict Json) → known d ≡ true → known e ≡ true → known (update d e) ≡ true
unfolding update
known-update d [] g h = g
known-update d ((k, v) ∷ e) g h =
    known-update (insert k v d) e (known-insert k v d (ground arith) g) (ground arith)

known-keep_item :
    (o : Option Field) (v : Json) (d : Dict Json)
    → ((f : Field) → o ≡ some f → is_some (field_of f.name) ≡ true)
    → known d ≡ true
    → known (keep_item o v d) ≡ true
known-keep_item none v d h g = g
known-keep_item (some f) v d h g = ground (arith, h f refl)

known-known_items : (ps : List (String × Json)) → known (known_items ps) ≡ true
known-known_items [] = refl
known-known_items ((k, v) ∷ ps) =
    known-keep_item (field_spelled (underscored (codes k))) v (known_items ps)
      (spelled-known (underscored (codes k))) (known-known_items ps)

known-section_items : (v : Json) (d : Dict Json) → section_items v ≡ some d → known d ≡ true
unfolding of_pairs
known-section_items (obj fs) d h =
    let made : of_pairs (known_items (fields fs)) ≡ d = cc h in
    subst (λ e. known e ≡ true) made
      (known-update [] (known_items (fields fs)) refl (known-known_items (fields fs)))
known-section_items null d h = absurd (cc)
known-section_items (bool b) d h = absurd (cc)
known-section_items (int s n) d h = absurd (cc)
known-section_items (float x) d h = absurd (cc)
known-section_items (str s) d h = absurd (cc)
known-section_items (arr xs) d h = absurd (cc)

pub known-from_file : (l : List Candidate) (d : Dict Json) → from_file l ≡ some d → known d ≡ true
unfolding from_file
known-from_file [] d h = ground arith
known-from_file (none ∷ rest) d h = known-from_file rest d h
known-from_file (some none ∷ rest) d h = absurd (cc)
known-from_file (some (some table) ∷ rest) d h = elim (Option-cases (section table)) [
  | inl bad ↦ absurd (ground arith)
  | inr (v, ok) ↦ known-section_items v d (rw ok at h)
]

module _ (wide : Wide) (to_int to_float : String → Option Json) where
  known-set_field :
      (o : Option Field) (raw : String) (out next : Dict Json)
      → ((f : Field) → o ≡ some f → is_some (field_of f.name) ≡ true)
      → known out ≡ true
      → set_field wide to_int to_float o raw out ≡ some next
      → known next ≡ true
  unfolding set_field
  known-set_field none raw out next named k h = ground arith
  known-set_field (some f) raw out next named k h =
      elim (Option-cases (coerce wide to_int to_float f.type raw)) [
        | inl bad ↦ absurd (ground arith)
        | inr (v, good) ↦
            let made : insert f.name v out ≡ next = ground arith in
            subst (λ d. known d ≡ true) made (known-insert f.name v out (named f refl) k)
      ]

  pub known-from_env :
      (environ : List (String × String)) (out env : Dict Json)
      → known out ≡ true
      → from_env wide to_int to_float out environ ≡ some env
      → known env ≡ true
  unfolding from_env
  known-from_env [] out env k h = ground arith
  known-from_env ((key, raw) ∷ rest) out env k h =
      elim (Option-cases (set_field wide to_int to_float (env_field key) raw out)) [
        | inl bad ↦ absurd (ground arith)
        | inr (next, good) ↦
            known-from_env rest next env
              (known-set_field (env_field key) raw out next (env_field-known key) k good)
              (rw good at h)
      ]
