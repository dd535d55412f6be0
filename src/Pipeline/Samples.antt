-- ===== src/Pipeline/Samples.antt =====
-- A registry of sample engines, and options, for the examples.
use mcp_probe.Base.{some, false, true, if◌then◌else◌, ◌∷◌, str_eq, [], none}
use mcp_probe.Models.Samples.{cheap}
use mcp_probe.Pipeline.Engines.{Engine, Registry, done, raised}
use mcp_probe.Pipeline.Gates.{GateConfig}
use mcp_probe.Pipeline.Run.{RunConfig}

abbrev pub cost_engine : Engine
cost_engine = record { requires_live = false; deterministic = true; run = λ seed. done cheap }

abbrev pub crashing_engine : Engine
crashing_engine = record {
  requires_live = true;
  deterministic = false;
  run = λ seed. raised "boom";
}

abbrev pub registry : Registry
registry name =
    if str_eq name "cost"
    then some cost_engine
    else if str_eq name "contract"
    then some crashing_engine
    else none

abbrev pub floors : GateConfig
floors = record {
  fail_under = some "B";
  fail_under_family = ("cost", "C") ∷ [];
  no_regressions = true;
}

abbrev pub options : RunConfig
options = record {
  families = "cost" ∷ "contract" ∷ [];
  seed = 7;
  reliability_k = 3;
  deep_security = false;
  gates = floors;
}
