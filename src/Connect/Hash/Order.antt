-- ===== src/Connect/Hash/Order.antt =====
-- src/mcp_quality/models.py: the hash does not depend on the order of the tools.
use mcp_probe.Base.{
  List, ℕ, codes_leb, ◌||◌, ◌≡◌, true, ◌∷◌, arith, [], refl, String, codes, str_eq, str_eq_iff,
  Bool-cases, false, ◌&&◌, inl, inr,
}
use mcp_probe.Base.Json.{Json}
use mcp_probe.Base.Sorting.{insert_sorted}
use mcp_probe.Connect.Hash.{by_name}
use Prim.Native.Char.{code}
use text.Mathlib.TextEquality.{Char-path}

codes_leb_total : (a b : List ℕ) → (codes_leb a b || codes_leb b a) ≡ true
codes_leb_total [] b = refl
codes_leb_total (x ∷ xs) [] = refl
codes_leb_total (x ∷ xs) (y ∷ ys) = ground (arith, codes_leb_total xs ys)

codes_leb_trans :
    (a b c : List ℕ) → codes_leb a b ≡ true → codes_leb b c ≡ true → codes_leb a c ≡ true
codes_leb_trans [] b c h k = refl
codes_leb_trans (x ∷ xs) [] c h k = absurd (cc)
codes_leb_trans (x ∷ xs) (y ∷ ys) [] h k = absurd (cc)
codes_leb_trans (x ∷ xs) (y ∷ ys) (z ∷ zs) h k = ground (arith, codes_leb_trans xs ys zs)

codes_leb_antisymm : (a b : List ℕ) → codes_leb a b ≡ true → codes_leb b a ≡ true → a ≡ b
codes_leb_antisymm [] [] h k = refl
codes_leb_antisymm [] (y ∷ ys) h k = absurd (cc)
codes_leb_antisymm (x ∷ xs) [] h k = absurd (cc)
codes_leb_antisymm (x ∷ xs) (y ∷ ys) h k = ground (arith, codes_leb_antisymm xs ys)

codes_injective : (a b : String) → codes a ≡ codes b → a ≡ b
codes_injective String.[] String.[] h = refl
codes_injective String.[] (String.◌∷◌ d t) h = absurd (cc)
codes_injective (String.◌∷◌ c s) String.[] h = absurd (cc)
codes_injective (String.◌∷◌ c s) (String.◌∷◌ d t) h =
    let head : code c ≡ code d = cc h in
    let rest : codes s ≡ codes t = cc h in
    λ i. String.◌∷◌ (Char-path c d head i) (codes_injective s t rest i)

by_name_total : (a b : String × Json) → (by_name a b || by_name b a) ≡ true
by_name_total a b = codes_leb_total (codes a.0) (codes b.0)

by_name_trans :
    (a b c : String × Json) → by_name a b ≡ true → by_name b c ≡ true → by_name a c ≡ true
by_name_trans a b c h k = codes_leb_trans (codes a.0) (codes b.0) (codes c.0) h k

-- Two tools of different names are in one order only.
by_name_strict :
    (a b : String × Json) → str_eq a.0 b.0 ≡ false → (by_name a b && by_name b a) ≡ false
by_name_strict a b different = elim (Bool-cases (by_name a b && by_name b a)) [
  | inr strict ↦ strict
  | inl both ↦
      let same : a.0 ≡ b.0 =
        codes_injective a.0 b.0
          (codes_leb_antisymm (codes a.0) (codes b.0) (ground arith) (ground arith)) in
      ground (arith, str_eq_iff a.0 b.0, same)
]

pub insert_sorted_comm :
    (a b : String × Json) (l : List (String × Json))
    → str_eq a.0 b.0 ≡ false
    → insert_sorted by_name a (insert_sorted by_name b l)
      ≡ insert_sorted by_name b (insert_sorted by_name a l)
unfolding insert_sorted
insert_sorted_comm a b [] different =
    ground (arith, by_name_total a b, by_name_strict a b different)
insert_sorted_comm a b (c ∷ l) different = ground (
  arith,
  by_name_total a b,
  by_name_strict a b different,
  by_name_trans a b c,
  by_name_trans b a c,
  insert_sorted_comm a b l different,
)
