-- ===== src/Handoff.antt =====
-- src/mcp_quality/handoff.py: the seed that a load simulation starts from.
pub mod Hotspots
mod Examples
use mcp_probe.Base.Ratio.{ratio}
use mcp_probe.Base.Json.{
  strs, of_items, Json, arr, obj, nil, str, of_fields, ratio_json, Fields, nat, truthy, fields,
}
use mcp_probe.Models.{Report, ToolDef, FamilyScore}
use mcp_probe.Base.Dict.{Dict, get}
use mcp_probe.Report.Emitter.{optional_text}
use mcp_probe.Base.{
  ◌>>=◌, option_or, String, Option, ℕ, [], List, some, ◌∷◌, none, take, if◌then◌else◌, map,
}

abbrev pub handoff_schema : String
handoff_schema = "swarmproof/probe-handoff@1"

-- `family.metrics if family else {}`
abbrev pub metrics_of : Option FamilyScore → Dict Json
metrics_of none = []
metrics_of (some fam) = fam.metrics

-- The first names of the items of a dictionary; `none` is an AttributeError
abbrev item_names : Option Json → Option (List String)
item_names none = some []
item_names (some (obj fs)) = some (take 3 (map (λ (f : String × Json). f.0) (fields fs)))
item_names (some v) = none

-- `_top_expensive`
unfoldable pub top_expensive : Dict Json → Option (List String)
top_expensive cost_metrics = item_names (get "per_tool_tokens" cost_metrics)

-- `[list(top)] if top else []`, of a list; `list` of another value raises or is not used
abbrev confusion_of : Option Json → Option (List Json)
confusion_of none = some []
confusion_of (some (arr xs)) = some (if truthy (arr xs) then arr xs ∷ [] else [])
confusion_of (some v) = if truthy v then none else some []

-- `_confusable_pairs`
unfoldable pub confusable_pairs : Dict Json → Option (List Json)
confusable_pairs leg_metrics = confusion_of (get "top_confusion" leg_metrics)

-- `contract.metrics.get("nondeterministic_tools", []) if contract else []`
unfoldable pub nondeterministic_tools : Dict Json → Json
nondeterministic_tools contract_metrics =
    option_or (get "nondeterministic_tools" contract_metrics) (arr nil)

-- `report.meta.get("target") or ""`
abbrev command_of : Option Json → Json
command_of none = str ""
command_of (some v) = if truthy v then v else str ""

unfoldable pub handed_tool : ToolDef → Json
handed_tool t = obj (
    of_fields (
      ("name", str t.name)
      ∷ ("description", optional_text t.description)
      ∷ ("input_schema", t.input_schema)
      ∷ []))

abbrev hundredths : ℕ → Json
hundredths n = ratio_json (ratio n 100)

-- `suggested_stampede_yaml`
abbrev suggestion : String → Json → Json
suggestion transport command = obj (
    of_fields (
      (
        "target",
        obj (
            of_fields
              (("type", str "mcp") ∷ ("transport", str transport) ∷ ("command", command) ∷ [])),
      )
      ∷ (
        "population",
        obj (
            of_fields (
              ("size", nat 200)
              ∷ (
                "mix",
                obj (
                    of_fields (
                      ("naive", hundredths 50)
                      ∷ ("expert", hundredths 20)
                      ∷ ("adversarial", hundredths 5)
                      ∷ [])),
              )
              ∷ [])),
      )
      ∷ []))

-- `hotspots`
unfoldable pub hotspots : Dict FamilyScore → Option Fields
hotspots families = do
  expensive ← top_expensive (metrics_of (get "cost" families))
  confusable ← confusable_pairs (metrics_of (get "legibility" families))
  some (
      of_fields (
        ("confusable_tool_pairs", arr (of_items confusable))
        ∷ ("expensive_tools", strs expensive)
        ∷ ("nondeterministic_tools", nondeterministic_tools (metrics_of (get "contract" families)))
        ∷ []))

-- `build_stampede_seed_dict`
unfoldable pub build_stampede_seed_dict : Report → Option Fields
build_stampede_seed_dict report = do
  spots ← hotspots report.families
  some (
      of_fields (
        ("schema", str handoff_schema)
        ∷ (
          "target",
          obj (
              of_fields (
                ("type", str "mcp")
                ∷ ("transport", str report.surface.transport)
                ∷ ("command", command_of (get "target" report.meta))
                ∷ ("protocol_version", str report.surface.protocol_version)
                ∷ [])),
        )
        ∷ (
          "surface",
          obj (
              of_fields (
                ("surface_hash", str report.surface.surface_hash)
                ∷ ("tools", arr (of_items (map handed_tool report.surface.tools)))
                ∷ [])),
        )
        ∷ ("hotspots", obj spots)
        ∷ (
          "suggested_stampede_yaml",
          suggestion report.surface.transport (command_of (get "target" report.meta)),
        )
        ∷ ("probe_report_ref", str "./mcp-quality-report.json")
        ∷ []))
