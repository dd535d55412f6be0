-- ===== src/Contract/Probe.antt =====
-- src/mcp_quality/engines/contract.py: the two probes of a tool on a live server. The server is a
-- parameter: what it answers to a call, in a state of its own.
use mcp_probe.Base.{
  String, Option, List, Bool, option_or, some, ◌∷◌, if◌then◌else◌, true, none, ℕ, ◌<>◌, false, not,
  ◌++◌, [], ◌&&◌,
}
use mcp_probe.Base.Json.{Json, truthy?, find_field}
use mcp_probe.Base.Json.Equality.{json_eq}
use mcp_probe.Models.{Severity, medium, high, Finding, ToolDef}
use mcp_probe.Base.Regex.{Wide}
use mcp_probe.Contract.Results.{ToolResult, Answer, raised, answered}
use mcp_probe.Contract.Errors.{Writers, grade_error_payload}
use mcp_probe.Contract.Silent.{detect_silent_failure}
use mcp_probe.Contract.Schema.{SchemaIssue, synthesize_invalid_args}

-- `Finding(family=self.name, ...)` of a tool
abbrev pub contract_finding : String → Severity → Option String → String → Option String → Finding
contract_finding code severity tool message remediation = record {
  family = "contract";
  code = code;
  severity = severity;
  message = message;
  tool = tool;
  remediation = remediation;
  owasp_id = none;
  source = "builtin";
  evidence = none;
}

-- What the probes use beside the server: argument synthesis, the package jsonschema, and what
-- Python writes of values and knows of characters.
pub record Judges : Type 0 where
  pub synthesize_args : Json → Json
  pub validate_against : Json → Json → List SchemaIssue
  pub writers : Writers
  pub wide : Wide

-- `conformance_broke, nondeterministic, silent` with the findings.
pub record Probed : Type 0 where
  pub broke : Bool
  pub nondet : Bool
  pub silent : Bool
  pub findings : List Finding

-- `first.structured if first.structured is not None else first.content`
abbrev payload : ToolResult → Json
payload r = option_or r.structured r.content

unfoldable pub nonconformant : String → SchemaIssue → Finding
nonconformant tool issue =
    contract_finding "C4-output-nonconformant" high (some tool)
      ("result violates declared output schema: " <> issue.message)
      (some "align the returned shape with output_schema, or drop the schema")

-- The issues of a result against the declared output schema.
unfoldable pub output_issues : Judges → ToolDef → ToolResult → List SchemaIssue
output_issues judges t first = elim t.output_schema [
  | none ↦ []
  | some schema ↦
      if truthy? (some schema) && not first.is_error
      then judges.validate_against (payload first) schema
      else []
]

-- A break of the output shape, or else a silent failure.
unfoldable pub judge_first : Judges → ToolDef → ToolResult → Probed
judge_first judges t first = elim (output_issues judges t first) [
  | issue ∷ issues ↦ record {
    broke = true;
    nondet = false;
    silent = false;
    findings = nonconformant t.name issue ∷ [];
  }
  | [] ↦ elim (detect_silent_failure judges.writers judges.wide t.name first t.output_schema) [
    | none ↦ record { broke = false; nondet = false; silent = false; findings = [] }
    | some sf ↦ record { broke = false; nondet = false; silent = true; findings = sf ∷ [] }
  ]
]

-- Do two answers to the same arguments differ.
unfoldable pub differs : ToolDef → ToolResult → ToolResult → Bool
differs t first second =
    not first.is_error
    && (not second.is_error
        && (not (json_eq first.content second.content)
            && not (truthy? (find_field "volatile" t.annotations))))

unfoldable pub nondeterminism : String → Finding
nondeterminism tool =
    contract_finding "C5-nondeterminism" medium (some tool)
      "same args produced different results on two calls"
      (some "declare volatile output, or make the tool deterministic")

unfoldable pub judge_second : ToolDef → ToolResult → Answer → Probed → Probed
judge_second t first (raised exc) p = p
judge_second t first (answered second) p =
    if differs t first second
    then record p { nondet = true; findings = p.findings ++ nondeterminism t.name ∷ [] }
    else p

unfoldable pub invocation_error : String → String → Finding
invocation_error tool exc =
    contract_finding "C4-invocation-error" high (some tool)
      ("tool raised on schema-valid args: " <> exc) none

unfoldable pub error_path_crash : String → String → Finding
error_path_crash tool exc =
    contract_finding "C9-error-path" high (some tool)
      ("tool crashed / did not return a JSON-RPC error on malformed input: " <> exc)
      (some "validate inputs and return a spec-compliant JSON-RPC error, not a crash")

-- `(crashed, affordance)` with the findings.
pub record ErrorPath : Type 0 where
  pub crashed : Bool
  pub affordance : Option ℕ
  pub findings : List Finding

-- What the answer to malformed input says of the tool.
unfoldable pub judge_error : Judges → String → Answer → ErrorPath
judge_error judges tool (raised exc) = record {
  crashed = true;
  affordance = none;
  findings = error_path_crash tool exc ∷ [];
}
judge_error judges tool (answered result) =
    let graded = grade_error_payload judges.writers judges.wide tool result in
    record { crashed = false; affordance = some graded.affordance; findings = graded.findings }

module _ {S : Type 0} (call_tool : String → Json → S → Answer × S) (judges : Judges) where
  -- The rest of the probe once the first call has answered.
  unfoldable pub after_first : ToolDef → Answer → S → Probed × S
  after_first t (raised exc) s = (
    record {
      broke = true;
      nondet = false;
      silent = false;
      findings = invocation_error t.name exc ∷ [];
    },
    s,
  )
  after_first t (answered first) s =
      let again = call_tool t.name (judges.synthesize_args t.input_schema) s in
      (judge_second t first again.0 (judge_first judges t first), again.1)

  -- `_probe_tool`
  unfoldable pub probe_tool : ToolDef → S → Probed × S
  unfolding after_first
  probe_tool t s =
      let one = call_tool t.name (judges.synthesize_args t.input_schema) s in
      after_first t one.0 one.1

  -- `_probe_error_path`
  unfoldable pub probe_error_path : ToolDef → S → ErrorPath × S
  unfolding judge_error
  probe_error_path t s =
      let bad = call_tool t.name (synthesize_invalid_args t.input_schema) s in
      (judge_error judges t.name bad.0, bad.1)
