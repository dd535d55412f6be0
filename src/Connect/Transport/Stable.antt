-- ===== src/Connect/Transport/Stable.antt =====
-- src/mcp_quality/connect/transport.py: the comparison of two connections.
use mcp_probe.Base.Json.{Json, Fields}
use mcp_probe.Models.{ServerSurface}
use mcp_probe.Connect.Hash.{compute_hash, with_hash}
use mcp_probe.Connect.Hash.Permuted.{distinct_names, compute_hash-Perm}
use mcp_probe.Connect.Discover.{
  tool_from_raw, resource_from_raw, prompt_from_raw, surface_from_tools,
}
use mcp_probe.Connect.Transport.{Page, listed, list_all, tools_list_stable}
use mathlib.Core.List.{Permᴰ}
use mathlib.Core.List.Permᴰ
use mcp_probe.Base.{
  List, Option, some, Option-cases, traverse, ◌≡◌, ◌∷◌, inl, ap, inr, refl, arith, sym, ◌∙◌, subst,
  String, ℕ, true, none, str_eq_refl,
}

-- The results for a reordered list are the reordered results.
module _ {A B : Type 0} (f : A → Option B) where
  abbrev Reordered : List B → List A → Type 0
  Reordered ts xs = (us : List B) × (traverse f xs ≡ some us) × Permᴰ ts us

  traverse-cons :
      (x : A) (xs : List A) (ts : List B)
      → traverse f (x ∷ xs) ≡ some ts
      → (y : B) × (ys : List B) × (f x ≡ some y) × (traverse f xs ≡ some ys) × (ts ≡ y ∷ ys)
  traverse-cons x xs ts h = elim (Option-cases (f x)) [
    | inl bad ↦ absurd (ground arith)
    | inr (y, good) ↦ elim (Option-cases (traverse f xs)) [
      | inl bad ↦ absurd (ground arith)
      | inr (ys, rest) ↦ (y, ys, good, rest, ground arith)
    ]
  ]

  cons-traverse :
      (x : A) (xs : List A) (y : B) (ys : List B)
      → f x ≡ some y
      → traverse f xs ≡ some ys
      → traverse f (x ∷ xs) ≡ some (y ∷ ys)
  cons-traverse x xs y ys h k = rw (h, k) refl

  traverse-Perm :
      {xs zs : List A} → Permᴰ xs zs → (ts : List B) → traverse f xs ≡ some ts → Reordered ts zs
  traverse-Perm Permᴰ.nil ts h = (ts, h, Permᴰ.refl ts)
  traverse-Perm (Permᴰ.cons {a = a} {b = b} {l₁ = l} {l₂ = m} e d) ts h =
      let (y, ys, fy, fys, made) = traverse-cons a l ts h in
      let (us, fus, p) = traverse-Perm d ys fys in
      (
        y ∷ us,
        cons-traverse b m y us (ap f (sym e) ∙ fy) fus,
        subst (λ t. Permᴰ t (y ∷ us)) (sym made) (Permᴰ.cons refl p),
      )
  traverse-Perm (Permᴰ.swap {a = a} {b = b} {a' = c} {b' = d} {l = l} e g) ts h =
      let (y, ys, fy, fys, made) = traverse-cons a (b ∷ l) ts h in
      let (z, zs, fz, fzs, made_too) = traverse-cons b l ys fys in
      (
        z ∷ y ∷ zs,
        cons-traverse c (d ∷ l) z (y ∷ zs) (ap f (sym g) ∙ fz)
            (cons-traverse d l y zs (ap f (sym e) ∙ fy) fzs),
        subst (λ t. Permᴰ t (z ∷ y ∷ zs)) (sym (made ∙ ap (λ r. y ∷ r) made_too))
            (Permᴰ.swap refl refl),
      )
  traverse-Perm (Permᴰ.trans d e) ts h =
      let (us, fus, p) = traverse-Perm d ts h in
      let (ws, fws, q) = traverse-Perm e us fus in (ws, fws, Permᴰ.trans p q)

module _ (sha256 : String → String) (dumps : Json → String) where
  surface-tools :
      (tools resources prompts : List Json) (info capabilities : Fields)
      (version transport : String) (surface : ServerSurface)
      → surface_from_tools sha256 dumps tools resources prompts info capabilities version transport
        ≡ some surface
      → (traverse tool_from_raw tools ≡ some surface.tools)
        × (surface.surface_hash ≡ compute_hash sha256 dumps surface.tools)
  unfolding surface_from_tools with_hash
  surface-tools tools resources prompts info capabilities version transport surface h =
      elim (Option-cases (traverse tool_from_raw tools)) [
        | inl bad ↦ absurd (ground arith)
        | inr (ts, good) ↦ elim (Option-cases (traverse resource_from_raw resources)) [
          | inl bad ↦ absurd (ground arith)
          | inr (rs, found_rs) ↦ elim (Option-cases (traverse prompt_from_raw prompts)) [
            | inl bad ↦ absurd (ground arith)
            | inr (ps, found_ps) ↦
                let built = rw (good, found_rs, found_ps) at h in
                let same : ts ≡ surface.tools = ground arith in (good ∙ ap some same, ground arith)
          ]
        ]
      ]

  module _ {S : Type 0}
      (list_tools list_resources list_prompts : S → Option String → Option Page × S) where
    -- Where a second connection lists the tools of the surface in whatever order, and no two of them
    -- have one name, the listing is found to be stable.
    pub tools_list_stable-Perm :
        (tools seconds resources prompts : List Json) (info capabilities : Fields)
        (version transport : String) (surface : ServerSurface) (fuel : ℕ) (s t : S)
        → surface_from_tools sha256 dumps tools resources prompts info capabilities version
            transport
          ≡ some surface
        → distinct_names surface.tools ≡ true
        → list_all list_tools fuel s none ≡ listed seconds t
        → Permᴰ tools seconds
        → tools_list_stable list_tools list_resources list_prompts sha256 dumps fuel s
            surface.surface_hash
          ≡ some true
    unfolding tools_list_stable surface_from_tools with_hash
    tools_list_stable-Perm tools seconds resources prompts info capabilities version transport
          surface fuel s t h distinct again p =
        let (listed_first, hashed) =
          surface-tools tools resources prompts info capabilities version transport surface h in
        let (us, listed_again, q) = traverse-Perm tool_from_raw p surface.tools listed_first in
        let equal : surface.surface_hash ≡ compute_hash sha256 dumps us =
          hashed ∙ compute_hash-Perm sha256 dumps surface.tools us ∣ q ∣₁ distinct in
        rw (again, listed_again, equal) (ap some (str_eq_refl (compute_hash sha256 dumps us)))
