-- ===== src/Fix/Edits.antt =====
-- src/mcp_quality/fix.py: what applying rewrites does to a text.
use mcp_probe.Base.{
  ℕ, List, suc, ◌≡◌, [], take, has_prefix, ◌∷◌, ◌+◌, All, Bool-cases, ◌⊎◌, subst, length, ◌++◌,
  true, ap, arith, map, inl, ◌==◌, codes_eq, inr, drop, refl, ◌∙◌,
}
use mcp_probe.Base.Sorting.{All-sort}
use mcp_probe.Fix.Rewrites.{
  Rewrite, Reason, occurrences, nearest, Located, at, skip, choose, anchor, locate_among, locate,
  splice, decide, apply_rewrites,
}

-- A text comes from another by replacing, for each rewrite in turn, one stretch that reads as its
-- old text by its new text.
pub data Edits : List ℕ → List Rewrite → List ℕ → Type 0 where
  done : (text : List ℕ) → Edits text [] text
  edit :
      (before after : List ℕ) (r : Rewrite) (rs : List Rewrite) (final : List ℕ)
      → Edits (before ++ (r.new ++ after)) rs final
      → Edits (before ++ (r.old ++ after)) (r ∷ rs) final

-- The needle stands in the text at the position.
abbrev Stands : List ℕ → List ℕ → ℕ → Type 0
Stands text needle i = take i text ++ (needle ++ drop (i + length needle) text) ≡ text

prefix_splits :
    (needle cs : List ℕ) → has_prefix needle cs ≡ true → needle ++ drop (length needle) cs ≡ cs
prefix_splits [] cs h = refl
prefix_splits (p ∷ ps) [] h = absurd (cc)
prefix_splits (p ∷ ps) (c ∷ cs) h =
    let rest = prefix_splits ps cs (ground arith) in let same : p ≡ c = ground arith in cc

suc_add : (i n : ℕ) → suc i + n ≡ suc (i + n)
suc_add i n = omega arith

zero_add : (n : ℕ) → 0 + n ≡ n
zero_add n = omega arith

Stands-first : (text needle : List ℕ) → has_prefix needle text ≡ true → Stands text needle 0
Stands-first text needle h =
    ap (λ (n : ℕ). needle ++ drop n text) (zero_add (length needle)) ∙ prefix_splits needle text h

shifted : (c : ℕ) (cs needle : List ℕ) (i : ℕ) → Stands cs needle i → Stands (c ∷ cs) needle (suc i)
shifted c cs needle i h =
    rw (ap (λ (n : ℕ). drop n (c ∷ cs)) (suc_add i (length needle)))
      (ap (λ (xs : List ℕ). c ∷ xs) h)

All-suc :
    (c : ℕ) (cs needle is : List ℕ)
    → All (Stands cs needle) is
    → All (Stands (c ∷ cs) needle) (map suc is)
All-suc c cs needle [] h = tt
All-suc c cs needle (i ∷ is) h = (shifted c cs needle i h.0, All-suc c cs needle is h.1)

occurrences-Stands : (text needle : List ℕ) → All (Stands text needle) (occurrences text needle)
unfolding occurrences
occurrences-Stands [] needle = elim (Bool-cases (has_prefix needle [])) [
  | inl here ↦ rw here (Stands-first [] needle here, tt)
  | inr absent ↦ rw absent tt
]
occurrences-Stands (c ∷ cs) needle = elim (Bool-cases (has_prefix needle (c ∷ cs))) [
  | inl here ↦
      rw here
        (Stands-first (c ∷ cs) needle here, All-suc c cs needle _ (occurrences-Stands cs needle))
  | inr absent ↦ rw absent (All-suc c cs needle _ (occurrences-Stands cs needle))
]

-- Where a rewrite is located, its old text stands.
StandsAt : List ℕ → List ℕ → Located → Type 0
StandsAt text needle (skip reason) = Unit
StandsAt text needle (at i) = Stands text needle i

choose-Stands :
    (text needle : List ℕ) (near : ℕ → ℕ) (count : ℕ) (is : List ℕ)
    → All (Stands text needle) is
    → StandsAt text needle (choose near count is)
unfolding choose StandsAt
choose-Stands text needle near count [] h = tt
choose-Stands text needle near count (i ∷ []) h = h.0
choose-Stands text needle near count (i ∷ j ∷ js) h = elim (Bool-cases (near i == near j)) [
  | inl tie ↦ rw tie tt
  | inr first ↦ rw first h.0
]

anchor-Stands :
    (text needle occ tool_pos : List ℕ)
    → All (Stands text needle) occ
    → StandsAt text needle (anchor occ tool_pos)
unfolding anchor StandsAt
anchor-Stands text needle occ [] h = tt
anchor-Stands text needle occ (tp ∷ tps) h =
    choose-Stands text needle (nearest tp tps) (length occ) _ (All-sort _ _ occ h)

locate_among-Stands :
    (text needle tool_pos occ : List ℕ)
    → All (Stands text needle) occ
    → StandsAt text needle (locate_among tool_pos occ)
unfolding locate_among StandsAt
locate_among-Stands text needle tool_pos [] h = tt
locate_among-Stands text needle tool_pos (i ∷ []) h = h.0
locate_among-Stands text needle tool_pos (i ∷ j ∷ js) h =
    anchor-Stands text needle (i ∷ j ∷ js) tool_pos h

decide-Stands : (text : List ℕ) (r : Rewrite) → StandsAt text r.old (decide text r)
unfolding decide locate StandsAt
decide-Stands text r = elim (Bool-cases (codes_eq r.old r.new)) [
  | inl same ↦ rw same tt
  | inr other ↦ rw other (
      locate_among-Stands text r.old (occurrences text r.tool) (occurrences text r.old)
        (occurrences-Stands text r.old))
]

Located-cases : (l : Located) → ((reason : Reason) × (l ≡ skip reason)) ⊎ ((i : ℕ) × (l ≡ at i))
Located-cases (skip reason) = inl (reason, refl)
Located-cases (at i) = inr (i, refl)

Stands-decided : (text : List ℕ) (r : Rewrite) (i : ℕ) → decide text r ≡ at i → Stands text r.old i
unfolding StandsAt
Stands-decided text r i e = subst (StandsAt text r.old) e (decide-Stands text r)

-- The updated text comes from the source by the applied rewrites, in their order: each replaces one
-- stretch that reads as its old text. Each rewrite is either applied or skipped.
pub apply_rewrites-Edits :
    (rs : List Rewrite) (text : List ℕ)
    → Edits text (apply_rewrites text rs).applied (apply_rewrites text rs).updated
      × (length (apply_rewrites text rs).applied + length (apply_rewrites text rs).skipped
          ≡ length rs)
unfolding apply_rewrites
apply_rewrites-Edits [] text = (done text, omega arith)
apply_rewrites-Edits (r ∷ rs) text = elim (Located-cases (decide text r)) [
  | inl (reason, e) ↦
      let rest = apply_rewrites-Edits rs text in
      rw (e, apply_rewrites) (rest.0, omega (arith, rest.1))
  | inr (i, e) ↦
      let rest = apply_rewrites-Edits rs (splice text r i) in
      let result = apply_rewrites (splice text r i) rs in
      rw (e, apply_rewrites)
        (
          subst (λ (t : List ℕ). Edits t (r ∷ result.applied) result.updated)
              (Stands-decided text r i e)
              (edit (take i text) (drop (i + length r.old) text) r result.applied result.updated
                rest.0),
          omega (arith, rest.1),
        )
]
