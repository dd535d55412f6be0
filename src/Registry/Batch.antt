-- ===== src/Registry/Batch.antt =====
-- src/mcp_quality/registry.py: scoring of many servers.
use mcp_probe.Connect.Discover.{surface_from_payload}
use mcp_probe.Models.{ServerSurface}
use mcp_probe.Registry.{
  Scored, given, value_error, uncaught, payload_error, score_payload, payload_surface, batch_entry,
  score_batch,
}
use mcp_probe.Base.Json.{
  null, bool, str, obj, int, float, nat, get_key, Json, Fields, arr, of_items, find_field,
}
use mcp_probe.Base.{
  option_or, Bool, true, false, length, ◌∙◌, ◌⊎◌, none, [], ◌∷◌, sym, ap, ◌>>=◌, subst, arith, inr,
  inl, Option-cases, some, all, ◌≡◌, is_some, List, Option, String, refl, traverse,
}
use mcp_probe.Pipeline.Engines.{Registry}

is_some-traverse :
    {A : Type 0} {B : Type 0} (f : A → Option B) (xs : List A)
    → is_some (traverse f xs) ≡ all (λ x. is_some (f x)) xs
is_some-traverse f [] = refl
is_some-traverse f (x ∷ xs) = elim (Option-cases (f x)) [
  | inl bad ↦ rw bad refl
  | inr (y, good) ↦ elim (Option-cases (traverse f xs)) [
    | inl rest ↦ ground (arith, is_some-traverse f xs)
    | inr (ys, rest) ↦ ground (arith, is_some-traverse f xs)
  ]
]

-- A payload that the registry can read: a list or an object.
abbrev pub is_listing : Json → Bool
is_listing (arr xs) = true
is_listing (obj fs) = true
is_listing v = false

abbrev text_of : Scored Fields → String
text_of (value_error text) = text
text_of _ = ""

module _ (sha256 : String → String) (dumps : Json → String) (registry : ServerSurface → Registry)
    (elapsed : Json) where
  -- A batch is answered exactly where no entry raises another exception than ValueError.
  score_batch-answers :
      (servers : List Json)
      → is_some (score_batch sha256 dumps registry elapsed servers)
        ≡ all (λ e. is_some (batch_entry sha256 dumps registry elapsed e)) servers
  unfolding score_batch
  score_batch-answers servers =
      elim (Option-cases (traverse (batch_entry sha256 dumps registry elapsed) servers)) [
        | inl bad ↦
            ground
              (arith, bad, is_some-traverse (batch_entry sha256 dumps registry elapsed) servers)
        | inr (results, good) ↦
            ground
              (arith, good, is_some-traverse (batch_entry sha256 dumps registry elapsed) servers)
      ]

  -- The result has the id of the entry, and either the report that the entry scores to alone, or
  -- the error of a payload that is no list and no object.
  abbrev pub IsResult : Json → Json → Type 0
  IsResult entry result =
      (get_key "id" result ≡ some (option_or (get_key "id" entry) null))
      × (((report : Fields) × (score_payload sha256 dumps registry elapsed entry ≡ given report)
            × (get_key "report" result ≡ some (obj report))
            × (get_key "error" result ≡ none))
          ⊎ ((is_listing entry ≡ false)
              × (get_key "error" result
                  ≡ some (str "payload must be a list or object with a 'tools' array"))
              × (get_key "report" result ≡ none)))

  -- One result for each entry, in their order.
  abbrev pub AreResults : List Json → List Json → Type 0
  AreResults [] [] = Unit
  AreResults (e ∷ es) (r ∷ rs) = IsResult e r × AreResults es rs
  AreResults _ _ = ⊥

  score_payload-value_error :
      (entry : Json) (text : String)
      → score_payload sha256 dumps registry elapsed entry ≡ value_error text
      → (is_listing entry ≡ false) × (text ≡ payload_error)
  unfolding score_payload payload_surface
  score_payload-value_error (arr xs) text h =
      elim (Option-cases (surface_from_payload sha256 dumps (arr xs))) [
        | inl bad ↦ absurd (let no : uncaught ≡ value_error text = rw bad at h in cc)
        | inr (surface, good) ↦ absurd (ground (arith, good))
      ]
  score_payload-value_error (obj fs) text h =
      elim (Option-cases (surface_from_payload sha256 dumps (obj fs))) [
        | inl bad ↦ absurd (let no : uncaught ≡ value_error text = rw bad at h in cc)
        | inr (surface, good) ↦ absurd (ground (arith, good))
      ]
  score_payload-value_error null text h = (refl, sym (ap text_of h))
  score_payload-value_error (bool b) text h = (refl, sym (ap text_of h))
  score_payload-value_error (str s) text h = (refl, sym (ap text_of h))
  score_payload-value_error (int b n) text h = (refl, sym (ap text_of h))
  score_payload-value_error (float r) text h = (refl, sym (ap text_of h))

  batch_entry-IsResult :
      (entry result : Json) (scored : Scored Fields)
      → score_payload sha256 dumps registry elapsed entry ≡ scored
      → batch_entry sha256 dumps registry elapsed entry ≡ some result
      → IsResult entry result
  unfolding batch_entry
  batch_entry-IsResult entry result (given report) e h =
      let made = rw e at h in
      subst (IsResult entry) (ap (λ o. option_or o null) made) (refl, inl (report, e, refl, refl))
  batch_entry-IsResult entry result (value_error text) e h =
      let made = rw e at h in
      let (bad, same) = score_payload-value_error entry text e in
      subst (IsResult entry) (ap (λ o. option_or o null) made)
        (refl, inr (bad, ap (λ t. some (str t)) same, refl))
  batch_entry-IsResult entry result uncaught e h = absurd (ground (arith, e))

  traverse-AreResults :
      (servers results : List Json)
      → traverse (batch_entry sha256 dumps registry elapsed) servers ≡ some results
      → AreResults servers results × (length results ≡ length servers)
  traverse-AreResults [] [] h = (tt, refl)
  traverse-AreResults [] (y ∷ ys) h = absurd (cc)
  traverse-AreResults (x ∷ xs) results h =
      elim (Option-cases (batch_entry sha256 dumps registry elapsed x)) [
        | inl bad ↦ absurd (ground arith)
        | inr (y, good) ↦
            elim (Option-cases (traverse (batch_entry sha256 dumps registry elapsed) xs)) [
              | inl rest ↦ absurd (ground arith)
              | inr (ys, rest) ↦
                  let built : some (y ∷ ys) ≡ some results = rw (good, rest) at h in
                  let (later, count) = traverse-AreResults xs ys rest in
                  subst (λ l. AreResults (x ∷ xs) l × (length l ≡ length (x ∷ xs)))
                    (ap (λ o. option_or o []) built)
                    (
                      (
                        batch_entry-IsResult x y (score_payload sha256 dumps registry elapsed x)
                            refl good,
                        later,
                      ),
                      omega (arith, count),
                    )
            ]
      ]

  -- A batch that is answered has one result for each server, in their order, and their number. A
  -- result has the id of its entry, null where there is none, and either the report of the entry
  -- scored alone and no error, or, for an entry that is no list and no object, the error that says
  -- so and no report.
  pub score_batch-AreResults :
      (servers : List Json) (doc : Fields)
      → score_batch sha256 dumps registry elapsed servers ≡ some doc
      → (results : List Json) × (find_field "results" doc ≡ some (arr (of_items results)))
        × (find_field "count" doc ≡ some (nat (length servers)))
        × AreResults servers results
  unfolding score_batch
  score_batch-AreResults servers doc h =
      elim (Option-cases (traverse (batch_entry sha256 dumps registry elapsed) servers)) [
        | inl bad ↦ absurd (ground arith)
        | inr (results, good) ↦
            let (same, count) = traverse-AreResults servers results good in
            (
              results,
              ap (λ o. o >>= find_field "results") (sym (rw good at h)),
              ap (λ o. o >>= find_field "count") (sym (rw good at h))
                  ∙ ap (λ n. some (nat n)) count,
              same,
            )
      ]
