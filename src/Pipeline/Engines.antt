-- ===== src/Pipeline/Engines.antt =====
-- src/mcp_quality/pipeline.py: running the engines. An engine's own code is a parameter here: its
-- outcome at a seed, for the surface, the configuration and the client of the run.
use mcp_probe.Base.{
  String, Bool, List, ℕ, Option, ◌∷◌, ◌<>◌, [], map, ◌≡◌, true, some, ◌&&◌, elem, false, none, zero,
  suc, inl, inr, if◌then◌else◌,
}
pub mod Degrade
use mcp_probe.Base.Dict
use mcp_probe.Base.Dict.{Dict, last}
use mcp_probe.Models.{FamilyScore, not_measured, tool}

pub data Outcome : Type 0 where
  done : FamilyScore → Outcome
  raised : String → Outcome

pub record Engine : Type 0 where
  pub requires_live : Bool
  pub deterministic : Bool
  pub run : ℕ → Outcome

-- `ENGINE_REGISTRY.get(name)`
abbrev pub Registry : Type 0
Registry = String → Option Engine

-- `LIVE_FAMILIES` of config.py
abbrev pub live_families : List String
live_families = "contract" ∷ "performance" ∷ "security" ∷ "spec" ∷ []

abbrev from_outcome : String → Outcome → FamilyScore
from_outcome name (done fs) = fs
from_outcome name (raised exc) = not_measured name ("engine error: " <> exc)

-- `_run_engine_once`; `static` is `client is None`
unfoldable pub run_engine_once : Registry → Bool → String → ℕ → FamilyScore
run_engine_once registry static name seed = elim (registry name) [
  | none ↦ not_measured name "engine not available in this build"
  | some engine ↦
      if static && elem name live_families && engine.requires_live
      then not_measured name "requires a live server (static mode)"
      else from_outcome name (engine.run seed)
]

-- `_run_engines`: the gathered pairs become a dictionary
unfoldable pub run_engines : Registry → Bool → ℕ → List String → Dict FamilyScore
run_engines registry static seed families =
    Dict.of_pairs (map (λ n. (n, run_engine_once registry static n seed)) families)
