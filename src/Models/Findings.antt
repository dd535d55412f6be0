-- ===== src/Models/Findings.antt =====
-- src/mcp_quality/models.py: `class Finding` and its JSON form.
use mcp_probe.Base.Json.Typed.{required, optional}
use mcp_probe.Base.{◌>>=◌, String, Option, none, some, List, [], ◌∷◌, ◌++◌}
use mcp_probe.Base.Json.{Json, Fields, null, str, obj, of_fields, find_field}
use mcp_probe.Models.Severities.{Severity, text, show_severity, parse}

pub record Finding : Type 0 where
  pub family : String
  pub code : String
  pub severity : Severity
  pub message : String
  pub tool : Option String
  pub remediation : Option String
  pub owasp_id : Option String
  pub source : String
  pub evidence : Option Fields

-- `if x is not None: d[k] = x`
abbrev pub text_field : String → Option String → List (String × Json)
text_field k none = []
text_field k (some s) = (k, str s) ∷ []

abbrev pub object_field : String → Option Fields → List (String × Json)
object_field k none = []
object_field k (some fs) = (k, obj fs) ∷ []

-- `Finding.to_dict`: the optional keys are written only when they are set
unfoldable pub to_dict : Finding → Fields
to_dict f = of_fields (
    ("code", str f.code)
    ∷ ("severity", str (show_severity f.severity))
    ∷ ("message", str f.message)
    ∷ (text_field "tool" f.tool
        ++ text_field "remediation" f.remediation
        ++ text_field "owasp_id" f.owasp_id
        ++ ("source", str f.source) ∷ object_field "evidence" f.evidence))

-- Fields at their annotated types: `none` is a KeyError, or a value of another JSON type.
abbrev optional_object : String → Fields → Option (Option Fields)
optional_object k d = elim (find_field k d) [
  | none ↦ some none
  | some null ↦ some none
  | some (obj fs) ↦ some (some fs)
  | _ ↦ none
]

-- `d.get("source", "builtin")`
abbrev source_or_builtin : Fields → Option String
source_or_builtin d = elim (find_field "source" d) [
  | none ↦ some "builtin"
  | some (str s) ↦ some s
  | _ ↦ none
]

-- `Finding.from_dict`
unfoldable pub from_dict : String → Fields → Option Finding
from_dict family d = do
  code ← required "code" d
  severity_text ← required "severity" d
  severity ← parse (text severity_text)
  message ← required "message" d
  tool ← optional "tool" d
  remediation ← optional "remediation" d
  owasp_id ← optional "owasp_id" d
  source ← source_or_builtin d
  evidence ← optional_object "evidence" d
  some (record {
    family = family;
    code = code;
    severity = severity;
    message = message;
    tool = tool;
    remediation = remediation;
    owasp_id = owasp_id;
    source = source;
    evidence = evidence;
  })
