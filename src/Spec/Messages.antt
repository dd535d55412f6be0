-- ===== src/Spec/Messages.antt =====
-- src/mcp_quality/engines/spec_surface.py: the grading of the messages that were captured. The
-- texts that `json.dumps` and `str` write are a writer's.
use mcp_probe.Base.{
  String, List, Option, [], Bool, ◌<>◌, if◌then◌else◌, ◌++◌, ◌∷◌, none, false, some, find?,
  flat_map, any, str_eq, true, not, length, ◌&&◌, str_empty, has_prefix, codes,
}
use mcp_probe.Base.Dict.{Dict}
use mcp_probe.Base.Regex.{Wide, found, lower_text, Regex}
use mcp_probe.Base.Json.{Json, nat, obj}
use mcp_probe.Models.{Finding, Severity, medium, high}
use mcp_probe.Contract.Errors.{Writers}
use mcp_probe.Legibility.Model.{contains}
use mcp_probe.Security.Patterns.Tables.{injection_patterns}
use mcp_probe.Spec.Capture.{SampledMessage, ElicitedRequest, CaptureLog, all_text}

-- `_SENSITIVE_TERMS`
abbrev pub sensitive_terms : List String
sensitive_terms =
    "password" ∷ "passphrase" ∷ "secret" ∷ "api key" ∷ "api_key" ∷ "apikey" ∷ "token"
    ∷ "credit card" ∷ "card number" ∷ "cvv" ∷ "ssn" ∷ "social security" ∷ "private key"
    ∷ "seed phrase" ∷ []

-- `_f` of spec_surface.py
abbrev pub spec_finding : String → Severity → String → String → Option String → Finding
spec_finding code severity message remediation owasp = record {
  family = "spec";
  code = code;
  severity = severity;
  message = message;
  tool = none;
  remediation = some remediation;
  owasp_id = owasp;
  source = "builtin";
  evidence = none;
}

-- What a check of the family gives: its findings, whether it was measured, its metrics
pub record Graded : Type 0 where
  pub findings : List Finding
  pub measured : Bool
  pub metrics : Dict Json

abbrev pub unmeasured : Graded
unmeasured = record { findings = []; measured = false; metrics = [] }

abbrev injected : Option (String × Regex) → List Finding
injected none = []
injected (some (label, r)) =
    spec_finding "SS1-sampling-injection" high
      ("server-built sampling prompt carries an injection tell (" <> label <> ")")
      "don't embed instructions or echoed tool/user data in sampling prompts" (some "MCP10:2025")
    ∷ []

abbrev pub asks_all_servers : Option String → Bool
asks_all_servers none = false
asks_all_servers (some c) = str_eq c "allServers"

abbrev broad_context : Bool → List Finding
broad_context false = []
broad_context true =
    spec_finding "SS2-sampling-context-broad" medium
      "sampling requests includeContext=allServers — exposes other servers' context"
      "scope includeContext to 'none' or 'thisServer'" (some "MCP10:2025")
    ∷ []

-- `el.url and not el.url.startswith("https://")`, with the URL
abbrev pub insecure_url : Option String → Option String
insecure_url none = none
insecure_url (some url) =
    if not (str_empty url) && not (has_prefix (codes "https://") (codes url))
    then some url
    else none

abbrev insecure_findings : Bool → Option String → List Finding
insecure_findings false url = []
insecure_findings true none = []
insecure_findings true (some url) =
    spec_finding "SS5-elicitation-insecure-url" medium ("elicitation URL is not HTTPS: " <> url)
      "serve elicitation URLs over HTTPS" (some "MCP01:2025")
    ∷ []

module _ (wide : Wide) (writers : Writers) where
  -- What a message of the sampling requests adds
  unfoldable pub grade_message : SampledMessage → List Finding
  grade_message msg =
      injected (
        find? (λ (p : String × Regex). found wide p.1 (all_text writers.show msg))
          (injection_patterns wide))
      ++ broad_context (asks_all_servers msg.include_context)

  -- `_grade_sampling`
  unfoldable pub grade_sampling : CaptureLog → Graded
  grade_sampling cap =
      if cap.used_sampling
      then record {
        findings = flat_map grade_message cap.sampling;
        measured = true;
        metrics = ("sampling_requests", nat (length cap.sampling)) ∷ [];
      }
      else unmeasured

  -- `any(term in blob for term in _SENSITIVE_TERMS)`
  unfoldable pub is_sensitive : ElicitedRequest → Bool
  is_sensitive el =
      any
        (λ (term : String).
          contains (codes term)
            (lower_text (codes (el.message <> " " <> writers.dumps (obj el.schema)))))
        sensitive_terms

  unfoldable pub grade_request : ElicitedRequest → List Finding
  grade_request el =
      (if str_eq el.mode "form" && is_sensitive el
        then spec_finding "SS4-elicitation-sensitive-form" high
            "server elicits secrets/PII via a form the server can read — use URL mode"
            "request sensitive input through URL-mode elicitation, not an inline form"
            (some "MCP01:2025")
          ∷ []
        else [])
      ++ insecure_findings (str_eq el.mode "url") (insecure_url el.url)

  -- `_grade_elicitation`
  unfoldable pub grade_elicitation : CaptureLog → Graded
  grade_elicitation cap =
      if cap.used_elicitation
      then record {
        findings = flat_map grade_request cap.elicitations;
        measured = true;
        metrics = [];
      }
      else unmeasured
