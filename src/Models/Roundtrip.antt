-- ===== src/Models/Roundtrip.antt =====
-- src/mcp_quality/models.py: what is written as JSON is read back.
use mcp_probe.Base.{String, Option, some, ◌≡◌, arith}
use mcp_probe.Base.Json.{Fields}
use mcp_probe.Models.Severities.{Severity, parse-show}
use mcp_probe.Models.Findings.{Finding, to_dict, from_dict}

module _ (family code message source : String) (severity : Severity) where
  abbrev with_options : Option String → Option String → Option String → Option Fields → Finding
  with_options tool remediation owasp_id evidence = record {
    family = family;
    code = code;
    severity = severity;
    message = message;
    tool = tool;
    remediation = remediation;
    owasp_id = owasp_id;
    source = source;
    evidence = evidence;
  }

  from_dict-with_options :
      (tool remediation owasp_id : Option String) (evidence : Option Fields)
      → from_dict family (to_dict (with_options tool remediation owasp_id evidence))
        ≡ some (with_options tool remediation owasp_id evidence)
  unfolding from_dict to_dict
  from_dict-with_options tool remediation owasp_id evidence = ground (arith, parse-show severity)

-- Reading a finding back from the JSON object that it was written to, under its own family, gives
-- the same finding, whichever of its optional fields are set.
pub from_dict-to_dict : (f : Finding) → from_dict f.family (to_dict f) ≡ some f
from_dict-to_dict f =
    from_dict-with_options f.family f.code f.message f.source f.severity f.tool f.remediation
      f.owasp_id f.evidence
