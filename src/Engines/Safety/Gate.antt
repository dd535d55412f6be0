-- ===== src/Engines/Safety/Gate.antt =====
-- src/mcp_quality/engines/safety.py: when the safety gate trips.
use mcp_probe.Base.Ratio.{Ratio, Le, whole}
use mcp_probe.Base.{
  inr, inl, Bool-cases, true, some, Bool, any, List, ◌≡◌, ◌||◌, arith, ◌∷◌, false, any-append, ◌⊎◌,
  ◌∙◌, ◌≤◌, [], refl,
}
use mcp_probe.Base.Regex.{Wide}
use mcp_probe.Models.{Finding, ToolDef, ServerSurface}
use mcp_probe.Engines.Safety.{
  safety_finding, untrue_read_only, untrue_destructive, annotation_missing, retry_unsafe,
  lies_read_only, lies_destructive, check_safety_contract, is_sc2, safety_findings, safety_score,
  safety_run,
}

-- The tool contradicts its name.
abbrev pub lies : ToolDef → Bool
lies t = lies_read_only t || lies_destructive t

module _ (wide : Wide) where
  any-check_safety_contract : (t : ToolDef) → any is_sc2 (check_safety_contract wide t) ≡ lies t
  unfolding check_safety_contract is_sc2 untrue_read_only untrue_destructive annotation_missing
      retry_unsafe safety_finding
  any-check_safety_contract t = ground arith

  any-safety_findings :
      (tools : List ToolDef) → any is_sc2 (safety_findings wide tools) ≡ any lies tools
  unfolding safety_findings
  any-safety_findings [] = refl
  any-safety_findings (t ∷ tools) =
      any-append is_sc2 (check_safety_contract wide t) (safety_findings wide tools)
      ∙ (λ i. any-check_safety_contract t i || any-safety_findings tools i)

  capped : (findings : List Finding) → any is_sc2 findings ≡ true → safety_score findings ≤ 55
  unfolding safety_score
  capped findings h = ground arith

  -- The safety engine trips its gate exactly when some tool that is named like a write declares
  -- itself read-only or not destructive, and then the score of its result is at most 55.
  pub safety_run-gate_iff :
      (surface : ServerSurface)
      → ((safety_run wide surface).hard_gate_tripped ≡ any lies surface.tools)
        × ((any lies surface.tools ≡ false)
            ⊎ ((r : Ratio) × ((safety_run wide surface).score ≡ some r) × Le r (whole 55)))
  unfolding safety_run
  safety_run-gate_iff surface =
      let gate = any-safety_findings surface.tools in
      let score = safety_score (safety_findings wide surface.tools) in
      elim (Bool-cases (any lies surface.tools)) [
        | inl lying ↦ (
          gate,
          inr (
            whole score,
            refl,
            omega (arith, capped (safety_findings wide surface.tools) (gate ∙ lying)),
          ),
        )
        | inr honest ↦ (gate, inl honest)
      ]
