-- ===== src/Models/Samples.antt =====
-- Sample findings, families and a report, for the examples of the other modules.
use mcp_probe.Base.{String, some, none, true, ◌∷◌, [], ℕ, false}
use mcp_probe.Base.Ratio.{whole}
use mcp_probe.Base.Dict.{Dict}
use mcp_probe.Base.Json.{obj, str, bool, end, of_fields}
use mcp_probe.Models.Severities.{high, low}
use mcp_probe.Models.Findings.{Finding}
use mcp_probe.Models.Families.{FamilyScore, Report, not_measured}
use mcp_probe.Models.Tools.{ToolDef, ServerSurface}

abbrev pub broken_finding : Finding
broken_finding = record {
  family = "contract";
  code = "CONTRACT_INVALID_SCHEMA";
  severity = high;
  message = "bad schema";
  tool = some "search";
  remediation = some "fix the schema";
  owasp_id = none;
  source = "builtin";
  evidence = some (of_fields (("got", str "x") ∷ []));
}

abbrev pub mild_finding : Finding
mild_finding = record broken_finding {
  family = "cost";
  code = "COST_HIGH";
  severity = low;
  tool = none;
  remediation = none;
  evidence = none;
}

abbrev pub graded : String → ℕ → String → FamilyScore
graded family points grade = record {
  family = family;
  score = some (whole points);
  grade = grade;
  hard_gate_tripped = false;
  findings = [];
  metrics = [];
  measured = true;
}

abbrev pub broken_contract : FamilyScore
broken_contract = record (graded "contract" 95 "A") {
  hard_gate_tripped = true;
  findings = broken_finding ∷ [];
}

abbrev pub cheap : FamilyScore
cheap = graded "cost" 80 "B"

abbrev pub skipped : FamilyScore
skipped = not_measured "performance" "requires a live server (static mode)"

-- A broken contract, a measured cost, and a family that was not measured.
abbrev pub mixed_families : Dict FamilyScore
mixed_families = ("contract", broken_contract) ∷ ("cost", cheap) ∷ ("performance", skipped) ∷ []

abbrev pub good_families : Dict FamilyScore
good_families = ("cost", cheap) ∷ ("performance", skipped) ∷ []

abbrev pub search_tool : ToolDef
search_tool = record {
  name = "search";
  description = some "Search the index for a query.";
  input_schema = obj (
      of_fields (
        ("type", str "object")
        ∷ (
          "properties",
          obj (of_fields (("query", obj (of_fields (("type", str "string") ∷ []))) ∷ [])),
        )
        ∷ []));
  output_schema = none;
  annotations = of_fields (("readOnlyHint", bool true) ∷ []);
  title = none;
}

abbrev pub one_tool : ServerSurface
one_tool = record {
  tools = search_tool ∷ [];
  resources = [];
  prompts = [];
  server_info = end;
  capabilities = end;
  protocol_version = "2025-06-18";
  transport = "stdio";
  surface_hash = "abc";
}

abbrev pub report_of : Dict FamilyScore → Report
report_of families = record {
  overall_score = some (whole 80);
  overall_grade = "B";
  families = families;
  surface = one_tool;
  rubric_version = "2026.08.1";
  tool_version = "0.1.0";
  weights = [];
  hard_gate = none;
  regression = none;
  meta = [];
}
