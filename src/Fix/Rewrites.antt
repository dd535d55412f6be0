-- ===== src/Fix/Rewrites.antt =====
-- src/mcp_quality/fix.py: `_occurrences`, `_locate` and `apply_rewrites`, on texts as code points.
use mcp_probe.Base.{
  ℕ, List, ◌-◌, Bool, if◌then◌else◌, ◌+◌, ◌∷◌, length, take, not, has_prefix, min, ◌==◌, leb, ◌++◌,
  codes_eq, is_empty, [], map, drop, suc,
}
use mcp_probe.Base.Sorting.{sort}

pub record Rewrite : Type 0 where
  pub tool : List ℕ
  pub old : List ℕ
  pub new : List ℕ

-- Why a rewrite is skipped; the program writes these as sentences with the count.
pub data Reason : Type 0 where
  identical : Reason
  not_found : Reason
  no_anchor : ℕ → Reason
  ambiguous : ℕ → Reason

-- `_occurrences`: every position where the needle starts, overlaps included
unfoldable pub occurrences : List ℕ → List ℕ → List ℕ
occurrences [] needle = if has_prefix needle [] then 0 ∷ [] else []
occurrences (c ∷ cs) needle =
    let rest = map suc (occurrences cs needle) in
    if has_prefix needle (c ∷ cs) then 0 ∷ rest else rest

abbrev distance : ℕ → ℕ → ℕ
distance a b = (a - b) + (b - a)

-- `min(abs(i - tp) for tp in tool_pos)`
unfoldable pub nearest : ℕ → List ℕ → ℕ → ℕ
nearest tp [] i = distance i tp
nearest tp (t ∷ ts) i = min (distance i tp) (nearest t ts i)

-- The place of a rewrite, or the reason for skipping it.
pub data Located : Type 0 where
  at : ℕ → Located
  skip : Reason → Located

-- The first of the ranked positions, unless the second is as near.
unfoldable pub choose : (ℕ → ℕ) → ℕ → List ℕ → Located
choose near count [] = skip not_found
choose near count (i ∷ []) = at i
choose near count (i ∷ j ∷ js) = if near i == near j then skip (ambiguous count) else at i

unfoldable pub anchor : List ℕ → List ℕ → Located
unfolding choose
anchor occ [] = skip (no_anchor (length occ))
anchor occ (tp ∷ tps) =
    choose (nearest tp tps) (length occ)
      (sort (λ i j. leb (nearest tp tps i) (nearest tp tps j)) occ)

unfoldable pub locate_among : List ℕ → List ℕ → Located
unfolding anchor
locate_among tool_pos [] = skip not_found
locate_among tool_pos (i ∷ []) = at i
locate_among tool_pos (i ∷ j ∷ js) = anchor (i ∷ j ∷ js) tool_pos

-- `_locate`
unfoldable pub locate : List ℕ → Rewrite → Located
unfolding locate_among
locate text r = locate_among (occurrences text r.tool) (occurrences text r.old)

-- `updated[:start] + rw.new + updated[start + len(rw.old):]`
abbrev pub splice : List ℕ → Rewrite → ℕ → List ℕ
splice text r start = take start text ++ (r.new ++ drop (start + length r.old) text)

-- One turn of the loop: where to splice, or why not.
unfoldable pub decide : List ℕ → Rewrite → Located
unfolding locate
decide text r = if codes_eq r.old r.new then skip identical else locate text r

pub record ApplyResult : Type 0 where
  pub updated : List ℕ
  pub applied : List Rewrite
  pub skipped : List (Rewrite × Reason)

abbrev pub note_skipped : Rewrite → Reason → ApplyResult → ApplyResult
note_skipped r reason rest = record rest { skipped = (r, reason) ∷ rest.skipped }

abbrev pub note_applied : Rewrite → ApplyResult → ApplyResult
note_applied r rest = record rest { applied = r ∷ rest.applied }

-- `apply_rewrites`, but for the diff that difflib makes of the two texts
unfoldable pub apply_rewrites : List ℕ → List Rewrite → ApplyResult
apply_rewrites text [] = record { updated = text; applied = []; skipped = [] }
apply_rewrites text (r ∷ rs) = elim (decide text r) [
  | skip reason ↦ note_skipped r reason (apply_rewrites text rs)
  | at start ↦ note_applied r (apply_rewrites (splice text r start) rs)
]

-- `ApplyResult.changed`
unfoldable pub changed : ApplyResult → Bool
changed result = not (is_empty result.applied)
