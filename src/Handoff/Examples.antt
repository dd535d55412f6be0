-- ===== src/Handoff/Examples.antt =====
-- Examples of the seed.
use mcp_probe.Contract.Engine.{contract_run}
use mcp_probe.Handoff.{nondeterministic_tools, confusable_pairs, top_expensive, hotspots}
use mcp_probe.Base.Json.{nil, end, arr, obj, of_fields, Fields}
use mcp_probe.Models.{FamilyScore}
use mcp_probe.Models.Samples.{one_tool}
use mcp_probe.Base.{◌∷◌, [], some, none, false, ◌≡◌, refl}
use mcp_probe.Base.Dict.{Dict, get}
use mcp_probe.Contract.Probe.{Judges}

abbrev judges : Judges
judges = record {
  synthesize_args = λ schema. obj end;
  validate_against = λ payload schema. [];
  writers = record { dumps = λ v. ""; show = λ v. ""; quote = λ cs. ""; of_codes = λ cs. "" };
  wide = record { word = λ c. false; space = λ c. false; digit = λ c. false };
}

abbrev families : Dict FamilyScore
families = ("contract", contract_run (λ s. []) judges false one_tool none) ∷ []

abbrev spots : Fields
spots = of_fields (
    ("confusable_tool_pairs", arr nil)
    ∷ ("expensive_tools", arr nil)
    ∷ ("nondeterministic_tools", arr nil)
    ∷ [])

spots_made : hotspots families ≡ some spots
unfolding hotspots top_expensive confusable_pairs nondeterministic_tools contract_run get
spots_made = refl

contract_here : get "contract" families ≡ some (contract_run (λ s. []) judges false one_tool none)
unfolding get
contract_here = refl
