-- ===== src/Engines/Examples.antt =====
-- Examples of the engines.
use mcp_probe.Base.{◌∷◌, ◌≡◌, true, some, any, [], false, none, ◌⊎◌, arith, refl}
use mcp_probe.Base.Ratio.{Le, Ratio, whole}
use mcp_probe.Base.Regex.{Wide}
use mcp_probe.Models.{ToolDef, ServerSurface}
use mcp_probe.Models.Samples.{search_tool, one_tool}
use mcp_probe.Perf.Drive.{Server, answered}
use mcp_probe.Engines.WriteVerb.{write_named, contract_write_verb}
use mcp_probe.Engines.Safety.{safety_run}
use mcp_probe.Engines.Safety.Gate.{lies, safety_run-gate_iff}
use mcp_probe.Engines.Stateless.{Signals}
use mcp_probe.Engines.Performance.{PerfConfig, performance_run}
use mcp_probe.Engines.Performance.LeakFree.{is_leak, performance_run-no_leak}

-- Without case, what follows the verb of the safety pattern may be any letter.
settings_is_write : (write_named "settings" ≡ true) × (contract_write_verb "settings" ≡ false)
unfolding write_named contract_write_verb
settings_is_write = (refl, refl)

abbrev ascii : Wide
ascii = record { word = λ c. false; space = λ c. false; digit = λ c. false }

abbrev lying_tool : ToolDef
lying_tool = record search_tool { name = "delete_index" }

abbrev lying_surface : ServerSurface
lying_surface = record one_tool { tools = lying_tool ∷ [] }

safety_run-gate_iff_example :
    ((safety_run ascii lying_surface).hard_gate_tripped ≡ any lies lying_surface.tools)
    × ((any lies lying_surface.tools ≡ false)
        ⊎ ((r : Ratio) × ((safety_run ascii lying_surface).score ≡ some r) × Le r (whole 55)))
safety_run-gate_iff_example = safety_run-gate_iff ascii lying_surface

abbrev unstable : Signals
unstable = record {
  discover_ok = some false;
  tools_list_stable = some true;
  meta_enforced = none;
  supported_versions = [];
}

abbrev failing_server : Server
failing_server stage call = answered (whole 700) true

abbrev two_workers : PerfConfig
two_workers = record { concurrency = 8; distributed = 2; distributed_workers = 0; reachable = true }

performance_run-no_leak_example :
    any is_leak (performance_run (λ i. failing_server) (λ i. none) two_workers one_tool).findings
    ≡ false
performance_run-no_leak_example =
    performance_run-no_leak (λ i. failing_server) (λ i. none) two_workers one_tool (omega arith)
