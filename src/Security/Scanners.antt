-- ===== src/Security/Scanners.antt =====
-- src/mcp_quality/security/adapters.py: reading what an external scanner prints. `str` of a value
-- that is no text and the reader of JSON are parameters; an exception is `none`.
use mcp_probe.Base.Json.{truthy, find_field, of_fields, Fields, Json, null, str, bool, int, float}
use mcp_probe.Connect.Discover.{or_else, get_raw}
use mcp_probe.Base.{
  codes, codes_eq, ◌/◌, option_or, ◌==◌, true, ◌<>◌, map, if◌then◌else◌, ℕ, List, Option, [], ◌∷◌,
  some, none, ◌>>=◌, String,
}
use mcp_probe.Base.Regex.{
  dot, optional, strip_blank, texts, lower_text, seq, found, text, any_of, Wide, Regex,
}
use mcp_probe.Models.{Severity, info, low, medium, high, critical, Finding}
use mcp_probe.Security.Issues.{iter_issues, cisco_issues}

-- `_SEVERITY_WORDS`
abbrev severity_words : List (String × Severity)
severity_words =
    ("critical", critical)
    ∷ ("high", high)
    ∷ ("error", high)
    ∷ ("medium", medium)
    ∷ ("warning", medium)
    ∷ ("moderate", medium)
    ∷ ("low", low)
    ∷ ("info", info)
    ∷ ("informational", info)
    ∷ []

abbrev word_severity : List (String × Severity) → List ℕ → Severity
word_severity [] word = medium
word_severity ((w, s) ∷ rest) word = if codes_eq (codes w) word then s else word_severity rest word

-- `Severity(min(4, n))`
abbrev number_severity : ℕ → Severity
number_severity n =
    if n == 0
    then info
    else if n == 1
    then low
    else if n == 2
    then medium
    else if n == 3
    then high
    else critical

-- `_READINESS_PERF`
abbrev readiness_perf : Regex
readiness_perf = any_of (text true "timeout") (
    text true "latency"
    ∷ seq (text true "retr" ∷ texts true "y" ("ies" ∷ []) ∷ [])
    ∷ text true "concurren"
    ∷ seq (text true "rate" ∷ optional dot ∷ text true "limit" ∷ [])
    ∷ text true "throttl"
    ∷ text true "slow"
    ∷ text true "load"
    ∷ [])

module _ (wide : Wide) (show : Json → String) where
  -- `_severity_of`
  unfoldable pub severity_of : Json → Severity
  severity_of (bool b) = number_severity (if b then 1 else 0)
  severity_of (int negative n) = number_severity (if negative then 0 else n)
  severity_of (float x) = number_severity (if x.negative then 0 else x.size.num / x.size.den)
  severity_of (str s) = word_severity severity_words (lower_text (strip_blank wide (codes s)))
  severity_of v = word_severity severity_words (lower_text (strip_blank wide (codes (show v))))

  -- `str(x)`
  abbrev shown : Json → String
  shown (str s) = s
  shown v = show v

  -- `str(x) if x else None`
  abbrev text_if : Json → Option String
  text_if v = if truthy v then some (shown v) else none

  abbrev evidence_of : Json → Option Fields
  evidence_of null = none
  evidence_of v = some (of_fields (("confidence", v) ∷ []))

  -- `_ShellAdapter._normalize`
  unfoldable pub normalize_issue : String → Fields → Finding
  normalize_issue source item =
      let get = λ (k : String). get_raw k item in
      record {
        family = "security";
        code = source <> "-" <> shown (or_else (get "id") (or_else (get "rule") (str "finding")));
        severity = severity_of (or_else (get "severity") (or_else (get "level") (str "medium")));
        message = shown (
            or_else (get "title") (
              or_else (get "name") (or_else (get "message") (or_else (get "rule") (str "issue")))));
        tool = text_if (or_else (get "tool") (or_else (get "target") (get "location")));
        remediation = none;
        owasp_id = text_if (or_else (get "owasp") (or_else (get "owasp_id") (get "category")));
        source = source;
        evidence = evidence_of (get "confidence");
      }

  -- `CiscoReadinessAdapter._normalize`
  unfoldable pub normalize_readiness : Fields → Finding
  normalize_readiness item =
      let get = λ (k : String). get_raw k item in
      let title = shown (option_or (find_field "title" item) (str "")) in
      let ident = shown (or_else (get "id") (or_else (get "analyzer") (str "check"))) in
      record {
        family =
            if found wide readiness_perf (title <> " " <> ident) then "performance" else "contract";
        code = "readiness-" <> ident;
        severity = severity_of (or_else (get "severity") (str "medium"));
        message = "[readiness] " <> title;
        tool = text_if (get "tool");
        remediation = none;
        owasp_id = none;
        source = "cisco";
        evidence = none;
      }

  -- `_ShellAdapter._parse`, by how the adapter finds the issues and normalizes them; a text that is
  -- no JSON gives no finding
  unfoldable pub parse_scan :
      (Json → Option (List Fields)) → (Fields → Finding) → Option Json → Option (List Finding)
  parse_scan issues normalize none = some []
  parse_scan issues normalize (some doc) = do
    found_issues ← issues doc
    some (map normalize found_issues)

  -- `_parse` of the adapters
  abbrev pub parse_mcp_scan : Option Json → Option (List Finding)
  parse_mcp_scan doc = parse_scan iter_issues (normalize_issue "mcp-scan") doc

  abbrev pub parse_cisco : Option Json → Option (List Finding)
  parse_cisco doc = parse_scan cisco_issues (normalize_issue "cisco") doc

  abbrev pub parse_readiness : Option Json → Option (List Finding)
  parse_readiness doc = parse_scan cisco_issues normalize_readiness doc
