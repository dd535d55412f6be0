-- ===== src/Security/Dedup/Covers.antt =====
-- src/mcp_quality/security/adapters.py: what the reconciliation keeps.
use mcp_probe.Contract.Engine.Writes.{All-snoc}
use mcp_probe.Base.{
  String, List, Bool, Option, All, some, ◌≡◌, ◌∷◌, any, ◌&&◌, Bool-cases, ◌||◌, inl, elem, [], inr,
  arith, refl, true, flat_map, str_eq_iff, any-append, ◌∙◌, none, ap,
}
use mcp_probe.Models.{Finding}
use mcp_probe.Security.Dedup.{
  Group, same_tool, best_of, is_cross_source, distinct_codes, reconcile, is_below, has_group_key,
  add_to_groups, put, group_findings, dedup_findings,
}

-- A finding is on the id and the tool.
abbrev pub is_on : Option String → Option String → Finding → Bool
is_on owasp tool f = same_tool f.owasp_id owasp && same_tool f.tool tool

abbrev group_on : Option String → Option String → Group → Bool
group_on owasp tool g = same_tool (some g.owasp) owasp && same_tool g.tool tool

module _ (owasp tool : Option String) where
  -- Every finding of a group is on an id and tool exactly when the group is.
  abbrev IsAlike : Bool → Finding → Type 0
  IsAlike b f = is_on owasp tool f ≡ b

  best_of-IsAlike :
      (b : Bool) (f : Finding) (fs : List Finding)
      → IsAlike b f
      → All (IsAlike b) fs
      → IsAlike b (best_of f fs)
  unfolding best_of
  best_of-IsAlike b f [] h hs = h
  best_of-IsAlike b f (g ∷ gs) h hs = elim (Bool-cases (is_below f g)) [
    | inl below ↦ rw below (best_of-IsAlike b g gs hs.0 hs.1)
    | inr above ↦ rw above (best_of-IsAlike b f gs h hs.1)
  ]

  distinct_codes-le :
      (b : Bool) (seen : List String) (fs : List Finding)
      → All (IsAlike b) fs
      → (any (is_on owasp tool) (distinct_codes seen fs) || b) ≡ b
  unfolding distinct_codes
  distinct_codes-le b seen [] h = refl
  distinct_codes-le b seen (f ∷ fs) h = elim (Bool-cases (elem f.code seen)) [
    | inl known ↦ rw known (distinct_codes-le b seen fs h.1)
    | inr new ↦ rw new (ground (arith, h.0, distinct_codes-le b (f.code ∷ seen) fs h.1))
  ]

  abbrev IsGroup : Group → Type 0
  IsGroup g =
      IsAlike (group_on owasp tool g) g.first × All (IsAlike (group_on owasp tool g)) g.others

  any-reconcile :
      (g : Group) → IsGroup g → any (is_on owasp tool) (reconcile g) ≡ group_on owasp tool g
  unfolding reconcile
  any-reconcile g h = elim (Bool-cases (is_cross_source g.first g.others)) [
    | inl cross ↦
        rw cross (ground (arith, best_of-IsAlike (group_on owasp tool g) g.first g.others h.0 h.1))
    | inr single ↦ rw single (
        unfold distinct_codes in
        ground
          (arith, h.0, distinct_codes-le (group_on owasp tool g) (g.first.code ∷ []) g.others h.1))
  ]

  same_tool_eq : (a b : Option String) → same_tool a b ≡ true → a ≡ b
  same_tool_eq none none h = refl
  same_tool_eq none (some b) h = absurd (cc)
  same_tool_eq (some a) none h = absurd (cc)
  same_tool_eq (some a) (some b) h = ap some ((str_eq_iff a b).0 h)

  -- A finding that joins a group is on what the group is on.
  joins-IsAlike :
      (id : String) (f : Finding) (g : Group)
      → f.owasp_id ≡ some id
      → has_group_key id f.tool g ≡ true
      → is_on owasp tool f ≡ group_on owasp tool g
  joins-IsAlike id f g e h =
      let key : g.owasp ≡ id = (str_eq_iff g.owasp id).0 (ground arith) in
      let on : g.tool ≡ f.tool = same_tool_eq g.tool f.tool (ground arith) in rw (e, key, on) refl

  any-add_to_groups :
      (id : String) (f : Finding) (gs : List Group)
      → f.owasp_id ≡ some id
      → any (group_on owasp tool) (add_to_groups id f gs)
        ≡ (any (group_on owasp tool) gs || is_on owasp tool f)
  unfolding add_to_groups
  any-add_to_groups id f [] e = rw e (ground arith)
  any-add_to_groups id f (g ∷ gs) e = elim (Bool-cases (has_group_key id f.tool g)) [
    | inl same ↦ rw same (ground (arith, joins-IsAlike id f g e same))
    | inr other ↦ rw other (ground (arith, any-add_to_groups id f gs e))
  ]

  All-add_to_groups :
      (id : String) (f : Finding) (gs : List Group)
      → f.owasp_id ≡ some id
      → All IsGroup gs
      → All IsGroup (add_to_groups id f gs)
  unfolding add_to_groups
  All-add_to_groups id f [] e h = ((rw e refl, tt), tt)
  All-add_to_groups id f (g ∷ gs) e h = elim (Bool-cases (has_group_key id f.tool g)) [
    | inl same ↦ rw same (
      (
        h.0.0,
        All-snoc (IsAlike (group_on owasp tool g)) g.others f h.0.1 (joins-IsAlike id f g e same),
      ),
      h.1,
    )
    | inr other ↦ rw other (h.0, All-add_to_groups id f gs e h.1)
  ]

  any-groups :
      (gs : List Group)
      → All IsGroup gs
      → any (is_on owasp tool) (flat_map reconcile gs) ≡ any (group_on owasp tool) gs
  any-groups [] h = refl
  any-groups (g ∷ gs) h =
      any-append (is_on owasp tool) (reconcile g) (flat_map reconcile gs)
      ∙ rw (any-reconcile g h.0, any-groups gs h.1) refl

  -- The findings that a state of the loop stands for
  abbrev on_state : List Group × List Finding → Bool
  on_state state = any (group_on owasp tool) state.0 || any (is_on owasp tool) state.1

  put-on :
      (o : Option String) (f : Finding) (state : List Group × List Finding)
      → f.owasp_id ≡ o
      → All IsGroup state.0
      → (on_state (put o f state) ≡ (on_state state || is_on owasp tool f))
        × All IsGroup (put o f state).0
  put-on none f state e h = (ground (arith, any-append (is_on owasp tool) state.1 (f ∷ [])), h)
  put-on (some id) f state e h =
      (ground (arith, any-add_to_groups id f state.0 e), All-add_to_groups id f state.0 e h)

  group_findings-on :
      (fs : List Finding) (state : List Group × List Finding)
      → All IsGroup state.0
      → (on_state (group_findings fs state) ≡ (on_state state || any (is_on owasp tool) fs))
        × All IsGroup (group_findings fs state).0
  unfolding group_findings
  group_findings-on [] state h = (ground arith, h)
  group_findings-on (f ∷ fs) state h =
      let one = put-on f.owasp_id f state refl h in
      let rest = group_findings-on fs (put f.owasp_id f state) one.1 in
      (ground (arith, one.0, rest.0), rest.1)

  -- An id and a tool have a finding after the reconciliation exactly when they had one before.
  pub dedup_findings-covers :
      (fs : List Finding) → any (is_on owasp tool) (dedup_findings fs) ≡ any (is_on owasp tool) fs
  unfolding dedup_findings
  dedup_findings-covers fs =
      let grouped = group_findings fs ([], []) in
      let all_on = group_findings-on fs ([], []) tt in
      any-append (is_on owasp tool) (flat_map reconcile grouped.0) grouped.1
      ∙ rw (any-groups grouped.0 all_on.1) all_on.0
