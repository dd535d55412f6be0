-- ===== src/Connect/Hash/Permuted.antt =====
-- src/mcp_quality/models.py: the hash does not depend on the order of the tools.
use mathlib.Core.Bool.{true≢false}
use mathlib.Core.HLevel.{hedberg, Discrete}
use mathlib.Core.List.{Perm, Permᴰ}
use mathlib.Core.Logic.{∥∥₁_elim}
use mcp_probe.Base.{
  List, String, Bool, map, true, str_eq, ◌≡◌, ◌∷◌, elem, ap, false, not, arith, ◌∙◌, ◌&&◌,
  str_eq_iff, sym, refl, [], ◌<>◌, Bool-cases, inl, inr,
}
use mcp_probe.Models.{ToolDef}
use mcp_probe.Connect.Hash.{by_name, payload_item, compute_hash, payload_items, values_of}
use mcp_probe.Connect.Hash.Order.{insert_sorted_comm}
use mcp_probe.Base.Sorting.{sort, insert_sorted}
use mcp_probe.Base.Json.{Json, arr, of_items}

abbrev pub names : List ToolDef → List String
names ts = map (λ (t : ToolDef). t.name) ts

-- No two tools have one name.
unfoldable pub distinct_names : List ToolDef → Bool
distinct_names [] = true
distinct_names (t ∷ ts) = not (elem t.name (names ts)) && distinct_names ts

elem-names :
    (s : String) {ts us : List ToolDef} → Permᴰ ts us → elem s (names ts) ≡ elem s (names us)
elem-names s Permᴰ.nil = refl
elem-names s (Permᴰ.cons {a = a} {b = b} {l₁ = l} {l₂ = m} e d) =
    let same : a.name ≡ b.name = ap (λ (t : ToolDef). t.name) e in
    ground (arith, same, elem-names s d)
elem-names s (Permᴰ.swap {a = a} {b = b} {a' = c} {b' = d} {l = l} e f) =
    let first : a.name ≡ d.name = ap (λ (t : ToolDef). t.name) e in
    let second : b.name ≡ c.name = ap (λ (t : ToolDef). t.name) f in ground (arith, first, second)
elem-names s (Permᴰ.trans d e) = elem-names s d ∙ elem-names s e

distinct-Perm : {ts us : List ToolDef} → Permᴰ ts us → distinct_names ts ≡ distinct_names us
unfolding distinct_names
distinct-Perm Permᴰ.nil = refl
distinct-Perm (Permᴰ.cons {a = a} {b = b} {l₁ = l} {l₂ = m} e d) =
    let same : a.name ≡ b.name = ap (λ (t : ToolDef). t.name) e in
    ground (arith, same, elem-names b.name d, distinct-Perm d)
distinct-Perm (Permᴰ.swap {a = a} {b = b} {a' = c} {b' = d} {l = l} e f) =
    let first : a.name ≡ d.name = ap (λ (t : ToolDef). t.name) e in
    let second : b.name ≡ c.name = ap (λ (t : ToolDef). t.name) f in
    ground (arith, first, second, str_eq_iff d.name c.name, str_eq_iff c.name d.name)
distinct-Perm (Permᴰ.trans d e) = distinct-Perm d ∙ distinct-Perm e

swapped :
    (a b : ToolDef) (l : List (String × Json))
    → str_eq a.name b.name ≡ false
    → insert_sorted by_name (payload_item a) (insert_sorted by_name (payload_item b) l)
      ≡ insert_sorted by_name (payload_item b) (insert_sorted by_name (payload_item a) l)
unfolding payload_item
swapped a b l h = insert_sorted_comm (payload_item a) (payload_item b) l h

sort-Perm :
    {ts us : List ToolDef}
    → Permᴰ ts us
    → distinct_names ts ≡ true
    → sort by_name (map payload_item ts) ≡ sort by_name (map payload_item us)
unfolding sort distinct_names
sort-Perm Permᴰ.nil h = refl
sort-Perm (Permᴰ.cons {a = a} {b = b} {l₁ = l} {l₂ = m} e d) h =
    ap (λ x. insert_sorted by_name (payload_item x) (sort by_name (map payload_item l))) e
    ∙ ap (insert_sorted by_name (payload_item b)) (sort-Perm d (ground arith))
sort-Perm (Permᴰ.swap {a = a} {b = b} {a' = c} {b' = d} {l = l} e f) h =
    swapped a b (sort by_name (map payload_item l)) (ground arith)
    ∙ ap
        (λ x.
          insert_sorted by_name (payload_item x)
            (insert_sorted by_name (payload_item a) (sort by_name (map payload_item l))))
        f
    ∙ ap
        (λ x.
          insert_sorted by_name (payload_item c)
            (insert_sorted by_name (payload_item x) (sort by_name (map payload_item l))))
        e
sort-Perm (Permᴰ.trans d e) h = sort-Perm d h ∙ sort-Perm e (sym (distinct-Perm d) ∙ h)

texts_discrete : Discrete String
texts_discrete a b = elim (Bool-cases (str_eq a b)) [
  | inl same ↦ yes ((str_eq_iff a b).0 same)
  | inr other ↦ no (λ e. true≢false (sym ((str_eq_iff a b).1 e) ∙ other))
]

module _ (sha256 : String → String) (dumps : Json → String) where
  -- Two listings of the same tools in different orders have one hash, when no two tools have
  -- one name.
  pub compute_hash-Perm :
      (ts us : List ToolDef)
      → Perm ts us
      → distinct_names ts ≡ true
      → compute_hash sha256 dumps ts ≡ compute_hash sha256 dumps us
  unfolding compute_hash payload_items
  compute_hash-Perm ts us p h =
      ∥∥₁_elim p (hedberg texts_discrete _ _) (λ d.
        ap (λ ps. "sha256:" <> sha256 (dumps (arr (of_items (values_of ps))))) (sort-Perm d h))
