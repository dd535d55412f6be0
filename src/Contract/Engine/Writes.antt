-- ===== src/Contract/Engine/Writes.antt =====
-- src/mcp_quality/engines/contract.py: the tools that the live loop calls.
use mathlib.Core.List.{append_assoc}
use mcp_probe.Base.{
  String, List, All, Bool, ◌++◌, ◌≡◌, ◌∷◌, [], false, Bool-cases, any, true, elem, str_eq, arith,
  subst, inl, str_eq_refl, ◌&&◌, inr, not,
}
use mcp_probe.Base.Json.{Json}
use mcp_probe.Models.{ToolDef}
use mcp_probe.Contract.Results.{Answer, raised, answered}
use mcp_probe.Contract.Probe.{after_first, Judges, probe_tool, probe_error_path}
use mcp_probe.Contract.Loop.{Live, no_probe, is_skipped, probe_both, probe_one, probe_all}

-- A server that remembers the names of the tools it was called with.
abbrev pub recording :
    (String → Json → List String → Answer) → String → Json → List String → Answer × List String
recording answers name args log = (answers name args log, log ++ name ∷ [])

pub All-snoc :
    {A : Type 0} (P : A → Type 0) (xs : List A) (x : A) → All P xs → P x → All P (xs ++ x ∷ [])
All-snoc P [] x h k = (k, tt)
All-snoc P (y ∷ ys) x h k = (h.0, All-snoc P ys x h.1 k)

module _ (answers : String → Json → List String → Answer) (judges : Judges)
    (P : String → Type 0) where
  after_first-log :
      (t : ToolDef) (answer : Answer) (log : List String)
      → P t.name
      → All P log
      → All P (after_first (recording answers) judges t answer log).1
  unfolding after_first
  after_first-log t (raised exc) log named h = h
  after_first-log t (answered first) log named h = All-snoc P log t.name h named

  probe_both-log :
      (allow_writes : Bool) (invalid : List String) (t : ToolDef) (live : Live) (log : List String)
      → P t.name
      → All P log
      → All P (probe_both (recording answers) judges allow_writes invalid t (live, log)).1
  unfolding probe_both probe_tool probe_error_path
  probe_both-log allow_writes invalid t live log named h =
      All-snoc P _ t.name
        (after_first-log t _ (log ++ t.name ∷ []) named (All-snoc P log t.name h named)) named

  module _ (allow_writes : Bool) (invalid : List String) where
    probe_one-log :
        (t : ToolDef) (live : Live) (log : List String)
        → (is_skipped allow_writes t ≡ false → P t.name)
        → All P log
        → All P (probe_one (recording answers) judges allow_writes invalid t (live, log)).1
    unfolding probe_one
    probe_one-log t live log named h = elim (Bool-cases (elem t.name invalid)) [
      | inl known ↦ rw known h
      | inr fine ↦ elim (Bool-cases (is_skipped allow_writes t)) [
        | inl skipped ↦ rw (fine, skipped) h
        | inr called ↦
            rw (fine, called) (probe_both-log allow_writes invalid t live log (named called) h)
      ]
    ]

    probe_all-log :
        (ts : List ToolDef) (state : Live × List String)
        → All (λ (t : ToolDef). is_skipped allow_writes t ≡ false → P t.name) ts
        → All P state.1
        → All P (probe_all (recording answers) judges allow_writes invalid ts state).1
    unfolding probe_all
    probe_all-log [] state named h = h
    probe_all-log (t ∷ ts) (live, log) named h =
        probe_all-log ts _ named.1 (probe_one-log t live log named.0 h)

-- Some tool of the list has the name and is not skipped as a write.
abbrev pub is_callable : Bool → List ToolDef → String → Bool
is_callable allow_writes tools name =
    any (λ (t : ToolDef). str_eq t.name name && not (is_skipped allow_writes t)) tools

callable_here :
    (allow_writes : Bool) (before after : List ToolDef) (t : ToolDef)
    → is_skipped allow_writes t ≡ false
    → is_callable allow_writes (before ++ t ∷ after) t.name ≡ true
callable_here allow_writes [] after t h = ground (arith, str_eq_refl t.name)
callable_here allow_writes (b ∷ before) after t h =
    ground (arith, callable_here allow_writes before after t h)

pub All-callable :
    (allow_writes : Bool) (before after : List ToolDef)
    → All
        (λ (t : ToolDef).
          is_skipped allow_writes t ≡ false
          → is_callable allow_writes (before ++ after) t.name ≡ true)
        after
All-callable allow_writes before [] = tt
All-callable allow_writes before (t ∷ after) = (
  callable_here allow_writes before after t,
  subst
      (λ (l : List ToolDef).
        All
          (λ (u : ToolDef).
            is_skipped allow_writes u ≡ false → is_callable allow_writes l u.name ≡ true)
          after)
      (append_assoc before (t ∷ []) after) (All-callable allow_writes (before ++ t ∷ []) after),
)

-- Whatever the server answers, each tool that the live loop calls has the name of a tool that is
-- not skipped: with writes not allowed, a name of which some tool is no write.
pub probe_all-calls :
    (answers : String → Json → List String → Answer) (judges : Judges) (allow_writes : Bool)
    (invalid : List String) (tools : List ToolDef)
    → All
        (λ (name : String). is_callable allow_writes tools name ≡ true)
        (probe_all (recording answers) judges allow_writes invalid tools (no_probe, [])).1
probe_all-calls answers judges allow_writes invalid tools =
    probe_all-log answers judges (λ (name : String). is_callable allow_writes tools name ≡ true)
      allow_writes invalid tools (no_probe, []) (All-callable allow_writes [] tools) tt
