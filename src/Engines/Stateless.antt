-- ===== src/Engines/Stateless.antt =====
-- src/mcp_quality/contract/stateless.py: grading stateless readiness from observed signals.
use mcp_probe.Base.{
  String, Bool, List, Option, any, not, none, false, if◌then◌else◌, ◌++◌, true, ◌≡◌, str_empty,
  some, ◌<>◌, [], ◌&&◌, ◌||◌, ◌∷◌, str_leb, arith,
}
use mcp_probe.Base.Json.{Json, str, of_fields}
use mcp_probe.Models.{Severity, low, medium, Finding}

-- `STATELESS_REVISION`
abbrev pub stateless_revision : String
stateless_revision = "2026-07-28"

-- `on_stateless_revision`
unfoldable pub on_stateless_revision : String → Bool
on_stateless_revision version = not (str_empty version) && str_leb stateless_revision version

-- `_f`; the program keeps an empty evidence as an empty object
unfoldable pub stateless_finding :
    String → Severity → String → String → List (String × Json) → Finding
stateless_finding code severity message remediation evidence = record {
  family = "contract";
  code = code;
  severity = severity;
  message = message;
  tool = none;
  remediation = some remediation;
  owasp_id = none;
  source = "builtin";
  evidence = some (of_fields evidence);
}

-- The observed signals; `none` is not measured.
pub record Signals : Type 0 where
  pub discover_ok : Option Bool
  pub tools_list_stable : Option Bool
  pub meta_enforced : Option Bool
  pub supported_versions : List String

-- `signal is False`
abbrev pub observed_bad : Option Bool → Bool
observed_bad none = false
observed_bad (some b) = not b

unfoldable pub discover_findings : String → Option Bool → List Finding
discover_findings version signal =
    if observed_bad signal
    then (if on_stateless_revision version
        then stateless_finding "C12-no-server-discover" medium
            ("negotiated " <> version <> " (stateless) but server/discover is not implemented")
            "implement server/discover — it is required by the 2026-07-28 revision"
            (("protocol_version", str version) ∷ [])
        else stateless_finding "C10-forward-compat" low
            "server/discover is not implemented (optional today, required by 2026-07-28)"
            "adopt the stateless server/discover path when your SDK ships it"
            (("protocol_version", str version) ∷ []))
      ∷ []
    else []

unfoldable pub stability_findings : Option Bool → List Finding
stability_findings signal =
    if observed_bad signal
    then stateless_finding "C12-tools-list-unstable" medium
        "tools/list differs across two fresh connections — the surface is per-connection"
        "return an identical tool list on every connection (no per-session leakage)" []
      ∷ []
    else []

unfoldable pub meta_findings : String → Option Bool → List Finding
meta_findings version signal =
    if observed_bad signal && on_stateless_revision version
    then stateless_finding "C12-meta-unenforced" low
        ("negotiated " <> version <> " but requests missing required _meta were accepted")
        "reject requests missing required _meta fields per the stateless revision" []
      ∷ []
    else []

pub record Readiness : Type 0 where
  pub protocol_version : Option String
  pub stateless : Bool
  pub signals : Signals

-- `grade_stateless_conformance`
unfoldable pub grade_stateless_conformance : String → Signals → List Finding × Readiness
grade_stateless_conformance version signals = (
  discover_findings version signals.discover_ok
      ++ (stability_findings signals.tools_list_stable
          ++ meta_findings version signals.meta_enforced),
  record {
    protocol_version = if str_empty version then none else some version;
    stateless = on_stateless_revision version;
    signals = signals;
  },
)

abbrev pub is_medium : Finding → Bool
is_medium f = elim f.severity [ medium ↦ true | _ ↦ false ]

-- There is a medium finding exactly when the tool list was seen to vary, or a server on the
-- stateless revision was seen to lack server/discover; a signal that was not measured gives none.
pub grade_stateless_conformance-medium_iff :
    (version : String) (signals : Signals)
    → any is_medium (grade_stateless_conformance version signals).0 ≡ (
        observed_bad signals.tools_list_stable
        || (observed_bad signals.discover_ok && on_stateless_revision version))
unfolding grade_stateless_conformance discover_findings stability_findings meta_findings
    stateless_finding
grade_stateless_conformance-medium_iff version signals = ground arith
