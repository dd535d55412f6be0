-- ===== src/Connect/Discover/Hints.antt =====
-- src/mcp_quality/connect/discover.py: the two spellings of the hints.
use mcp_probe.Base.{
  String, List, ◌≡◌, if◌then◌else◌, [], ◌∷◌, false, inl, inr, str_eq, arith, refl, str_eq_iff, ◌⊎◌,
  subst, ap, ◌∙◌, sym,
}
use mcp_probe.Base.Dict.{Dict, get, insert, get-insert, last}
use mcp_probe.Base.Json.{Json, null, bool, int, float, str, arr, obj}
use mcp_probe.Connect.Discover.{canon, normalize_item, normalize_items}

-- A hint's name as version 2 of the SDK spells it.
abbrev snake : String → String
snake key =
    if str_eq key "readOnlyHint"
    then "read_only_hint"
    else if str_eq key "destructiveHint"
    then "destructive_hint"
    else if str_eq key "idempotentHint"
    then "idempotent_hint"
    else if str_eq key "openWorldHint"
    then "open_world_hint"
    else key

-- A key is one of four, or none of them.
cases4 :
    (k a b c d : String)
    → (k ≡ a)
      ⊎ (k ≡ b)
      ⊎ (k ≡ c)
      ⊎ (k ≡ d)
      ⊎ ((str_eq k a ≡ false) × (str_eq k b ≡ false) × (str_eq k c ≡ false) × (str_eq k d ≡ false))
cases4 k a b c d = ground (arith, str_eq_iff k a, str_eq_iff k b, str_eq_iff k c, str_eq_iff k d)

canon-snake : (key : String) → canon (snake key) ≡ canon key
unfolding canon
canon-snake key =
    elim (cases4 key "readOnlyHint" "destructiveHint" "idempotentHint" "openWorldHint") [
      | inl e ↦ subst (λ k. canon (snake k) ≡ canon k) (sym e) refl
      | inr (inl e) ↦ subst (λ k. canon (snake k) ≡ canon k) (sym e) refl
      | inr (inr (inl e)) ↦ subst (λ k. canon (snake k) ≡ canon k) (sym e) refl
      | inr (inr (inr (inl e))) ↦ subst (λ k. canon (snake k) ≡ canon k) (sym e) refl
      | inr (inr (inr (inr (e, f, g, h)))) ↦ rw (e, f, g, h) refl
    ]

-- What the hints are in the spelling of version 2.
abbrev pub in_snake : List (String × Json) → List (String × Json)
in_snake [] = []
in_snake ((key, value) ∷ rest) = (snake key, value) ∷ in_snake rest

normalize_item-snake :
    (out : Dict Json) (key : String) (v : Json)
    → normalize_item out (snake key) v ≡ normalize_item out key v
unfolding normalize_item
normalize_item-snake out key null = refl
normalize_item-snake out key (bool b) = ap (λ k. insert k (bool b) out) (canon-snake key)
normalize_item-snake out key (int s n) = ap (λ k. insert k (int s n) out) (canon-snake key)
normalize_item-snake out key (float x) = ap (λ k. insert k (float x) out) (canon-snake key)
normalize_item-snake out key (str s) = ap (λ k. insert k (str s) out) (canon-snake key)
normalize_item-snake out key (arr xs) = ap (λ k. insert k (arr xs) out) (canon-snake key)
normalize_item-snake out key (obj fs) = ap (λ k. insert k (obj fs) out) (canon-snake key)

-- Both spellings are normalised to the same hints.
pub normalize_items-in_snake :
    (out : Dict Json) (hints : List (String × Json))
    → normalize_items out (in_snake hints) ≡ normalize_items out hints
unfolding normalize_items
normalize_items-in_snake out [] = refl
normalize_items-in_snake out ((key, value) ∷ rest) =
    ap (λ o. normalize_items o (in_snake rest)) (normalize_item-snake out key value)
    ∙ normalize_items-in_snake (normalize_item out key value) rest

-- Whether an item is kept, and under which key.
abbrev pub kept : List (String × Json) → Dict Json
kept [] = []
kept ((key, null) ∷ rest) = kept rest
kept ((key, value) ∷ rest) = (canon key, value) ∷ kept rest

-- After the loop a key reads as the last value that is no null among the items with this
-- canonical key, or as it did before the loop where there is none.
get-normalize_items :
    (k : String) (hints : List (String × Json)) (out : Dict Json)
    → get k (normalize_items out hints) ≡ last k (kept hints) (get k out)
unfolding normalize_items normalize_item
get-normalize_items k [] out = refl
get-normalize_items k ((key, null) ∷ rest) out = get-normalize_items k rest out
get-normalize_items k ((key, bool b) ∷ rest) out =
    get-normalize_items k rest (insert (canon key) (bool b) out)
    ∙ ap (last k (kept rest)) (get-insert (canon key) k (bool b) out)
get-normalize_items k ((key, int s n) ∷ rest) out =
    get-normalize_items k rest (insert (canon key) (int s n) out)
    ∙ ap (last k (kept rest)) (get-insert (canon key) k (int s n) out)
get-normalize_items k ((key, float x) ∷ rest) out =
    get-normalize_items k rest (insert (canon key) (float x) out)
    ∙ ap (last k (kept rest)) (get-insert (canon key) k (float x) out)
get-normalize_items k ((key, str s) ∷ rest) out =
    get-normalize_items k rest (insert (canon key) (str s) out)
    ∙ ap (last k (kept rest)) (get-insert (canon key) k (str s) out)
get-normalize_items k ((key, arr xs) ∷ rest) out =
    get-normalize_items k rest (insert (canon key) (arr xs) out)
    ∙ ap (last k (kept rest)) (get-insert (canon key) k (arr xs) out)
get-normalize_items k ((key, obj fs) ∷ rest) out =
    get-normalize_items k rest (insert (canon key) (obj fs) out)
    ∙ ap (last k (kept rest)) (get-insert (canon key) k (obj fs) out)
