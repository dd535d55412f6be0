-- ===== src/Base/Sorting.antt =====
-- `sorted`: a stable insertion sort, by a Boolean order on the keys.
use mathlib.Core.Logic.{inl, inr}
use Prim.Native.String.{String}
use mathlib.Core.Path.{◌≡◌, refl, ◌∙◌, ap}
use mathlib.Core.Bool.{Bool, ◌||◌}
use mathlib.Core.List.{List, [], ◌∷◌}
use native.Mathlib.Omega.{arith}
use mcp_probe.Base.Tests.{if◌then◌else◌, Bool-cases}
use mcp_probe.Base.Lists.{any, All}
use mcp_probe.Base.Texts.{str_eq, str_leb, elem, str_eq_iff, str_eq_refl}

module _ {ℓ} {A : Type ℓ} (le : A → A → Bool) where
  unfoldable pub insert_sorted : A → List A → List A
  insert_sorted x [] = x ∷ []
  insert_sorted x (y ∷ ys) = if le x y then x ∷ y ∷ ys else y ∷ insert_sorted x ys

  -- `sorted(xs)`; equal elements keep their order
  unfoldable pub sort : List A → List A
  unfolding insert_sorted
  sort [] = []
  sort (x ∷ xs) = insert_sorted x (sort xs)

  pub any-insert_sorted :
      (p : A → Bool) (x : A) (ys : List A) → any p (insert_sorted x ys) ≡ (p x || any p ys)
  unfolding insert_sorted
  any-insert_sorted p x [] = refl
  any-insert_sorted p x (y ∷ ys) = ground (arith, any-insert_sorted p x ys)

  pub any-sort : (p : A → Bool) (xs : List A) → any p (sort xs) ≡ any p xs
  unfolding sort
  any-sort p [] = refl
  any-sort p (x ∷ xs) = any-insert_sorted p x (sort xs) ∙ ap (λ b. p x || b) (any-sort p xs)

-- `sorted(set(xs))`, `sorted` over distinct texts
unfoldable pub sort_texts : List String → List String
sort_texts = sort str_leb

-- `set(xs)`: the first of equal texts is kept
unfoldable pub dedup : List String → List String
dedup [] = []
dedup (x ∷ xs) = let rest = dedup xs in if elem x rest then rest else x ∷ rest

pub elem-sort_texts : (s : String) (xs : List String) → elem s (sort_texts xs) ≡ elem s xs
unfolding sort_texts
elem-sort_texts s xs = any-sort str_leb (str_eq s) xs

pub elem-dedup : (s : String) (xs : List String) → elem s (dedup xs) ≡ elem s xs
unfolding dedup
elem-dedup s [] = refl
elem-dedup s (x ∷ xs) = elim (Bool-cases (str_eq s x)) [
  | inl same ↦ rw (← (str_eq_iff s x).0 same) (ground (arith, elem-dedup s xs, str_eq_refl s))
  | inr other ↦ ground (arith, elem-dedup s xs)
]

-- What holds of every element holds of every sorted element.
module _ {ℓ κ} {A : Type ℓ} (le : A → A → Bool) (P : A → Type κ) where
  All-insert_sorted : (x : A) (ys : List A) → P x → All P ys → All P (insert_sorted le x ys)
  unfolding insert_sorted
  All-insert_sorted x [] h hs = (h, tt)
  All-insert_sorted x (y ∷ ys) h hs = elim (Bool-cases (le x y)) [
    | inl first ↦ rw first (h, hs)
    | inr later ↦ rw later (hs.0, All-insert_sorted x ys h hs.1)
  ]

  pub All-sort : (xs : List A) → All P xs → All P (sort le xs)
  unfolding sort
  All-sort [] h = tt
  All-sort (x ∷ xs) h = All-insert_sorted x (sort le xs) h.0 (All-sort xs h.1)
