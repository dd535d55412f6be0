-- ===== src/Base/Dict.antt =====
-- Python's `dict` with text keys: insertion order is kept, an update keeps the key's place.
use mcp_probe.Base.Tests.{if◌then◌else◌, is_some}
use mcp_probe.Base.Texts.{str_eq, str_eq_iff, elem}
use Prim.Native.String.{String}
use mathlib.Core.Path.{◌≡◌, refl, ap, ◌∙◌}
use mathlib.Core.Bool.{Bool}
use mathlib.Core.List.{List, [], ◌∷◌}
use mathlib.Core.Option.{Option, none, some}
use native.Mathlib.Omega.{arith}

abbrev pub Dict {ℓ} : Type ℓ → Type ℓ
Dict V = List (String × V)

module _ {ℓ} {V : Type ℓ} where
  -- `d.get(k)`
  unfoldable pub get : String → Dict V → Option V
  get k [] = none
  get k ((j, v) ∷ d) = if str_eq j k then some v else get k d

  -- `d[k] = v`
  unfoldable pub insert : String → V → Dict V → Dict V
  insert k v [] = (k, v) ∷ []
  insert k v ((j, w) ∷ d) = if str_eq j k then (j, v) ∷ d else (j, w) ∷ insert k v d

  -- `list(d)`
  abbrev pub keys : Dict V → List String
  keys [] = []
  keys ((k, v) ∷ d) = k ∷ keys d

  -- `d.values()`
  abbrev pub values : Dict V → List V
  values [] = []
  values ((k, v) ∷ d) = v ∷ values d

  -- `k in d`
  abbrev pub has_key : String → Dict V → Bool
  has_key k d = elem k (keys d)

  -- `d.update(e)`
  unfoldable pub update : Dict V → Dict V → Dict V
  update d [] = d
  update d ((k, v) ∷ e) = update (insert k v d) e

  -- `dict(pairs)`, `{k: v for k, v in pairs}`: a later pair replaces an earlier one
  unfoldable pub of_pairs : List (String × V) → Dict V
  unfolding update
  of_pairs ps = update [] ps

  pub get-insert :
      (k j : String) (v : V) (d : Dict V)
      → get j (insert k v d) ≡ (if str_eq k j then some v else get j d)
  unfolding get insert
  get-insert k j v [] = refl
  get-insert k j v ((i, w) ∷ d) =
      ground (arith, str_eq_iff k j, str_eq_iff i k, str_eq_iff i j, get-insert k j v d)

  -- A key is listed exactly when `get` finds it.
  pub is_some-get : (k : String) (d : Dict V) → is_some (get k d) ≡ has_key k d
  unfolding get
  is_some-get k [] = refl
  is_some-get k ((j, v) ∷ d) = ground (arith, str_eq_iff j k, str_eq_iff k j, is_some-get k d)

  -- What a merge finds: the right side where it has the key, the left side elsewhere.
  abbrev pub last : String → Dict V → Option V → Option V
  last k [] o = o
  last k ((j, v) ∷ e) o = last k e (if str_eq j k then some v else o)

  pub get-update : (k : String) (d e : Dict V) → get k (update d e) ≡ last k e (get k d)
  unfolding update
  get-update k d [] = refl
  get-update k d ((j, v) ∷ e) = get-update k (insert j v d) e ∙ ap (last k e) (get-insert j k v d)
