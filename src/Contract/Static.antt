-- ===== src/Contract/Static.antt =====
-- src/mcp_quality/engines/contract.py: the checks that need no live server.
use mcp_probe.Base.{
  String, Bool, Option, none, some, List, [], true, if◌then◌else◌, ◌∷◌, not, ◌<>◌, flat_map, filter,
  ◌++◌, str_eq, is_empty, map, ◌||◌,
}
use mcp_probe.Base.Sorting.{dedup}
use mcp_probe.Base.Json.{Json, str, of_fields, truthy?}
use mcp_probe.Models.{low, medium, high, critical, Finding, ToolDef}
use mcp_probe.Engines.Stateless.{Signals}
use mcp_probe.Contract.Schema.{SchemaIssue, validate_schema}
use mcp_probe.Contract.Probe.{contract_finding}

-- The fields of the connect record that the engine reads.
pub record ConnectRecord : Type 0 where
  pub protocol_version : String
  pub transport : String
  pub framing_ok : Bool
  pub framing_errors : Json
  pub signals : Signals

-- `_framing_ok`
unfoldable pub framing_ok : Option ConnectRecord → Bool
framing_ok none = true
framing_ok (some rec) = rec.framing_ok

abbrev when : Bool → Finding → List Finding
when b f = if b then f ∷ [] else []

unfoldable pub framing_finding : ConnectRecord → Finding
framing_finding rec =
    record (contract_finding "C1-framing" critical none
      "server emitted non-conformant JSON-RPC 2.0 framing" none) {
        evidence = some (of_fields (("errors", rec.framing_errors) ∷ []));
      }

unfoldable pub sse_finding : Finding
sse_finding =
    record (contract_finding "C10-forward-compat" low none
      "server uses the deprecated HTTP+SSE transport"
      (some "migrate to Streamable HTTP (SSE was deprecated in the 2025-03-26 spec)")) {
        evidence = some (of_fields (("transport", str "sse") ∷ []));
      }

-- `_check_handshake`
unfoldable pub check_handshake : Option ConnectRecord → List Finding
check_handshake none = []
check_handshake (some rec) =
    when (not rec.framing_ok) (framing_finding rec) ++ when (str_eq rec.transport "sse") sse_finding

unfoldable pub input_issue : String → SchemaIssue → Finding
input_issue tool issue =
    record (contract_finding "C3-schema-invalid" high (some tool)
      ("input schema is not well-formed: " <> issue.message)
      (some "fix the JSON Schema (resolve $ref, correct types/enums)")) {
        evidence = some (of_fields (("path", str issue.path) ∷ []));
      }

unfoldable pub output_issue : String → SchemaIssue → Finding
output_issue tool issue =
    contract_finding "C3-output-schema-invalid" medium (some tool)
      ("output schema is not well-formed: " <> issue.message) none

module _ (check_schema : Json → List SchemaIssue) where
  -- The output schema's issues, where one is declared.
  unfoldable pub output_schema_issues : ToolDef → List SchemaIssue
  output_schema_issues t = elim t.output_schema [
    | none ↦ []
    | some schema ↦ if truthy? (some schema) then validate_schema check_schema schema else []
  ]

  -- `tool.name in schema_invalid` is about the name, so about every tool of that name.
  unfoldable pub has_bad_schema : ToolDef → Bool
  has_bad_schema t =
      not (is_empty (validate_schema check_schema t.input_schema))
      || not (is_empty (output_schema_issues t))

  unfoldable pub schema_findings : List ToolDef → List Finding
  schema_findings tools =
      flat_map
        (λ (t : ToolDef).
          map (input_issue t.name) (validate_schema check_schema t.input_schema)
          ++ map (output_issue t.name) (output_schema_issues t))
        tools

  abbrev names : List ToolDef → List String
  names [] = []
  names (t ∷ ts) = t.name ∷ names ts

  -- `schema_invalid`, each name once
  unfoldable pub schema_invalid : List ToolDef → List String
  schema_invalid tools = dedup (names (filter has_bad_schema tools))
