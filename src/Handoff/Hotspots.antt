-- ===== src/Handoff/Hotspots.antt =====
-- src/mcp_quality/handoff.py over src/mcp_quality/engines/contract.py: what the seed says of the
-- tools that are not deterministic.
use mcp_probe.Contract.Engine.{contract_run, LiveServer}
use mcp_probe.Models.{FamilyScore, ServerSurface}
use mcp_probe.Contract.Probe.{Judges}
use mcp_probe.Base.Json.{nil, arr, find_field, Fields, Json}
use mcp_probe.Handoff.{
  nondeterministic_tools, confusable_pairs, metrics_of, top_expensive, hotspots,
}
use mcp_probe.Base.Dict.{Dict, get}
use mcp_probe.Base.{
  ◌>>=◌, ap, sym, refl, ◌∙◌, inr, arith, inl, Option-cases, some, ◌≡◌, Option, Bool, List,
}
use mcp_probe.Contract.Schema.{SchemaIssue}

contract_run-nondeterministic :
    (check_schema : Json → List SchemaIssue) (judges : Judges) (allow_writes : Bool)
    (surface : ServerSurface) (server : Option LiveServer)
    → nondeterministic_tools (contract_run check_schema judges allow_writes surface server).metrics
      ≡ arr nil
unfolding nondeterministic_tools contract_run get
contract_run-nondeterministic check_schema judges allow_writes surface server = refl

-- In a seed for a report of which the contract family is the contract engine's, the list of the
-- nondeterministic tools is empty, whatever the engine saw.
hotspots-no_nondeterministic :
    (check_schema : Json → List SchemaIssue) (judges : Judges) (allow_writes : Bool)
    (surface : ServerSurface) (server : Option LiveServer) (families : Dict FamilyScore)
    (spots : Fields)
    → get "contract" families ≡ some (contract_run check_schema judges allow_writes surface server)
    → hotspots families ≡ some spots
    → find_field "nondeterministic_tools" spots ≡ some (arr nil)
unfolding hotspots
hotspots-no_nondeterministic check_schema judges allow_writes surface server families spots h made =
    let named = ap metrics_of h in
    let empty = contract_run-nondeterministic check_schema judges allow_writes surface server in
    elim (Option-cases (top_expensive (metrics_of (get "cost" families)))) [
      | inl bad ↦ absurd (ground arith)
      | inr (expensive, good) ↦
          elim (Option-cases (confusable_pairs (metrics_of (get "legibility" families)))) [
            | inl bad ↦ absurd (ground arith)
            | inr (confusable, fine) ↦
                ap (λ o. o >>= find_field "nondeterministic_tools") (sym (rw (good, fine) at made))
                ∙ ap some (ap nondeterministic_tools named ∙ empty)
          ]
    ]
