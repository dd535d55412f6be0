-- ===== src/Contract/Examples.antt =====
-- Examples of the contract engine.
use mcp_probe.Contract.Synthesis.Covers.{synthesize_args-properties, names_in}
use mcp_probe.Contract.Synthesis.{assemble, synthesize_args}
use mcp_probe.Contract.Shapes.{
  seed_int, hex_text, token_text, synth_string, integer_value, combiner_of, enum_value,
  declared_type, typed_shape, shape_of,
}
use mcp_probe.Base.{show_nat, some, String, [], ◌∷◌, All, none, false, ◌≡◌, true, ◌≤◌, refl}
use mcp_probe.Base.Json.{Json, Fields, nat, str, of_fields, obj, end, arr, of_items}
use mcp_probe.Base.Sorting.{dedup}
use mcp_probe.Base.Regex.{Wide}
use mcp_probe.Contract.Errors.{Writers}
use mcp_probe.Models.{ToolDef, ServerSurface}
use mcp_probe.Models.Samples.{search_tool, one_tool}
use mcp_probe.Scoring.Grade.{order_or_zero}
use mcp_probe.Contract.Schema.{check_refs, ref_issues, validate_schema, resolve_local_ref}
use mcp_probe.Contract.Results.{raised, ToolResult}
use mcp_probe.Contract.Probe.{Judges}
use mcp_probe.Contract.Static.{schema_invalid, has_bad_schema}
use mcp_probe.Contract.Loop.{no_probe, probe_all}
use mcp_probe.Contract.Engine.{contract_gate, contract_run}
use mcp_probe.Contract.Engine.Gate.{contract_run-gated}
use mcp_probe.Contract.Engine.Writes.{recording, is_callable, probe_all-calls}

abbrev ascii : Wide
ascii = record { word = λ c. false; space = λ c. false; digit = λ c. false }

abbrev writers : Writers
writers = record { dumps = λ v. ""; show = λ v. ""; quote = λ cs. ""; of_codes = λ cs. "" }

abbrev judges : Judges
judges = record {
  synthesize_args = λ schema. obj end;
  validate_against = λ payload schema. [];
  writers = writers;
  wide = ascii;
}

-- A schema with a reference that leads nowhere.
abbrev broken_tool : ToolDef
broken_tool = record search_tool {
  name = "broken";
  input_schema = obj (of_fields (("$ref", str "#/definitions/gone") ∷ []));
}

abbrev broken_surface : ServerSurface
broken_surface = record one_tool { tools = broken_tool ∷ [] }

broken_gate : (contract_run (λ s. []) judges false broken_surface none).hard_gate_tripped ≡ true
unfolding contract_run contract_gate schema_invalid dedup has_bad_schema validate_schema check_refs
    ref_issues resolve_local_ref
broken_gate = refl

contract_run-gated_example :
    order_or_zero (contract_run (λ s. []) judges false broken_surface none).grade ≤ 1
contract_run-gated_example =
    contract_run-gated (λ s. []) judges false broken_surface none broken_gate

-- A reference through a list is not followed.
list_reference :
    resolve_local_ref (obj (of_fields (("allOf", arr (of_items (obj end ∷ []))) ∷ []))) "#/allOf/0"
    ≡ false
unfolding resolve_local_ref
list_reference = refl

abbrev writer : ToolDef
writer = record search_tool { name = "delete_index"; annotations = end }

probe_all-calls_example :
    All
      (λ (name : String). is_callable false (writer ∷ search_tool ∷ []) name ≡ true)
      (probe_all
        (recording (λ name args log. raised "down"))
        judges
        false
        []
        (writer ∷ search_tool ∷ [])
        (no_probe, [])).1
probe_all-calls_example =
    probe_all-calls (λ name args log. raised "down") judges false [] (writer ∷ search_tool ∷ [])

-- A declared error that says what to change.
abbrev helpful_error : ToolResult
helpful_error = record { content = str "query is required"; structured = none; is_error = true }

-- A schema with an optional property, and the value that is synthesized for it.
abbrev wanted : Fields
wanted = of_fields (
    ("q", obj (of_fields (("type", str "string") ∷ ("minLength", nat 9) ∷ [])))
    ∷ (
      "n",
      obj (of_fields (("type", str "integer") ∷ ("minimum", nat 1) ∷ ("maximum", nat 2) ∷ [])),
    )
    ∷ [])

abbrev wanted_schema : Fields
wanted_schema = of_fields (
    ("type", str "object")
    ∷ ("properties", obj wanted)
    ∷ ("required", arr (of_items (str "q" ∷ [])))
    ∷ [])

-- The integer is above its maximum.
abbrev wanted_value : Json
wanted_value = obj (of_fields (("q", str "probe-4xx") ∷ ("n", nat 5) ∷ []))

wanted_made : synthesize_args (λ s. 4) 42 (obj wanted_schema) "" ≡ some wanted_value
unfolding synthesize_args assemble shape_of typed_shape declared_type enum_value combiner_of
    integer_value synth_string token_text hex_text seed_int show_nat
wanted_made = refl

synthesize_args-properties_example :
    (gs : Fields) × (wanted_value ≡ obj gs) × (names_in gs ≡ names_in wanted)
synthesize_args-properties_example =
    synthesize_args-properties (λ s. 4) 42 wanted_schema wanted "" wanted_value
      (refl, (refl, (refl, (refl, (refl, (refl, tt)))))) refl wanted_made
