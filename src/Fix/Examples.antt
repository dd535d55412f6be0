-- ===== src/Fix/Examples.antt =====
-- Examples of rewriting.
use mcp_probe.Base.{ℕ, List, codes, ◌∷◌, [], length, ◌≡◌, ◌+◌, refl}
use mcp_probe.Fix.Rewrites.{Rewrite, apply_rewrites, occurrences, locate, locate_among, decide}
use mcp_probe.Fix.Edits.{Edits, apply_rewrites-Edits}

abbrev source : List ℕ
source = codes "search = 'find it'; fetch = 'get it'"

abbrev rewrite : Rewrite
rewrite = record { tool = codes "search"; old = codes "find it"; new = codes "Find a page" }

apply_rewrites-Edits_example :
    Edits source
      (apply_rewrites source (rewrite ∷ [])).applied
      (apply_rewrites source (rewrite ∷ [])).updated
    × (length (apply_rewrites source (rewrite ∷ [])).applied
          + length (apply_rewrites source (rewrite ∷ [])).skipped
        ≡ length (rewrite ∷ []))
apply_rewrites-Edits_example = apply_rewrites-Edits (rewrite ∷ []) source

-- The rewrite is applied.
updated_source :
    (apply_rewrites source (rewrite ∷ [])).updated
    ≡ codes "search = 'Find a page'; fetch = 'get it'"
unfolding apply_rewrites decide locate locate_among occurrences
updated_source = refl
