-- ===== src/Security/Patterns.antt =====
-- src/mcp_quality/security/patterns.py: the checks of a surface's texts.
-- `str` of a schema is a writer's; `math.log2` is a parameter, of a fraction that is at least 1.
pub mod Tables
use mcp_probe.Security.Patterns.Tables.{
  injection_patterns, secret_patterns, dangerous, is_letter_or_digit,
}
use mcp_probe.Base.{
  String, List, ℕ, Bool, Option, suc, true, ◌||◌, false, [], some, flat_map, ◌<>◌, if◌then◌else◌,
  ◌∷◌, codes, none, zero, ◌==◌, str_empty, ◌++◌, text_or_empty, length, leb, count_if, any,
}
use mcp_probe.Base.Ratio
use mcp_probe.Base.Ratio.{Ratio, ratio, whole, sum}
use mcp_probe.Base.Json.{Json, Fields, field, end, obj, str, of_fields, ratio_json}
use mcp_probe.Base.Regex.{
  Wide, Regex, then_, empty, one, many, boundary, text, texts, seq, any_of, optional, some_of,
  times, dot, in_range, fold_code, is_word, is_blank, found,
}
use mcp_probe.Models.{
  Finding, Severity, medium, high, critical, ServerSurface, ToolDef, ResourceDef,
}
use mcp_probe.Contract.Errors.{Writers}
use mcp_probe.Contract.Errors.Patterns.{as_word}

-- A text of the surface: its tool, where it stands, and itself
pub record Place : Type 0 where
  pub tool : Option String
  pub where_ : String
  pub content : String

abbrev place : Option String → String → String → Place
place tool at content = record { tool = tool; where_ = at; content = content }

-- A description, if it is there and not empty
abbrev described : Option String → String → Option String → List Place
described tool at none = []
described tool at (some s) = if str_empty s then [] else place tool at s ∷ []

abbrev security_finding :
    String
    → Severity
    → Option String
    → String
    → String
    → String
    → Option (List (String × Json))
    → Finding
security_finding code severity tool message remediation owasp evidence = record {
  family = "security";
  code = code;
  severity = severity;
  message = message;
  tool = tool;
  remediation = some remediation;
  owasp_id = some owasp;
  source = "builtin";
  evidence = elim evidence [ none ↦ none | some ps ↦ some (of_fields ps) ];
}

module _ (writers : Writers) where
  abbrev server_place : Fields → List Place
  server_place end = []
  server_place (field k v fs) = place none "server_info" (writers.show (obj (field k v fs))) ∷ []

  -- `_texts`
  unfoldable pub places : ServerSurface → List Place
  places surface =
      flat_map
        (λ (t : ToolDef).
          described (some t.name) "description" t.description
          ++ place (some t.name) "schema" (writers.show t.input_schema) ∷ [])
        surface.tools
      ++ flat_map (λ (r : ResourceDef). described none ("resource:" <> r.uri) r.description)
          surface.resources
      ++ server_place surface.server_info

  module _ (wide : Wide) where
    -- The patterns that a text has, each made a finding
    abbrev pattern_findings : (String → Finding) → List (String × Regex) → String → List Finding
    pattern_findings make [] content = []
    pattern_findings make ((label, r) ∷ rest) content =
        (if found wide r content then make label ∷ [] else []) ++ pattern_findings make rest content

    abbrev injection_finding : Place → String → Finding
    injection_finding p label =
        security_finding ("S1-injection-" <> label) high p.tool
          ("possible tool-poisoning / hidden-instruction marker in " <> p.where_ <> ": " <> label)
          "remove hidden instructions from tool/resource text" "MCP03:2025"
          (some (("where", str p.where_) ∷ []))

    -- `scan_injection`
    unfoldable pub scan_injection : ServerSurface → List Finding
    scan_injection surface =
        flat_map
          (λ (p : Place).
            pattern_findings (injection_finding p) (injection_patterns wide) p.content)
          (places surface)

    abbrev secret_finding : Place → String → Finding
    secret_finding p label =
        security_finding ("S2-secret-" <> label) critical p.tool
          ("hard-coded secret (" <> label <> ") exposed in " <> p.where_)
          "move secrets to env/secret store; never ship them in the surface" "MCP01:2025"
          (some (("where", str p.where_) ∷ []))

    abbrev dangerous_tool : ToolDef → List Finding
    dangerous_tool t =
        if found wide (dangerous wide) (t.name <> " " <> text_or_empty t.description)
        then security_finding "S3-dangerous-capability" medium (some t.name)
            ("tool '" <> t.name <> "' exposes a command-execution capability (shell/exec/file/db)")
            "constrain the capability, require confirmation, or scope it down" "MCP05:2025" none
          ∷ []
        else []

    -- `scan_dangerous_capabilities`
    unfoldable pub scan_dangerous_capabilities : ServerSurface → List Finding
    scan_dangerous_capabilities surface = flat_map dangerous_tool surface.tools

    module _ (log2 : Ratio → Ratio) where
      -- The terms of `_shannon_entropy`, `-(c / n) * log2(c / n)` written `(c / n) * log2(n / c)`,
      -- for each code point that does not stand further behind
      abbrev entropy_terms : List ℕ → List ℕ → List Ratio
      entropy_terms whole_token [] = []
      entropy_terms whole_token (c ∷ cs) =
          let rest = entropy_terms whole_token cs in
          let n = length whole_token in
          let k = count_if (λ d. d == c) whole_token in
          if any (λ d. d == c) cs then rest else Ratio.mul (ratio k n) (log2 (ratio n k)) ∷ rest

      -- `_shannon_entropy`
      unfoldable pub shannon_entropy : List ℕ → Ratio
      shannon_entropy token = sum (entropy_terms token token)

      -- `[A-Za-z0-9+/=_-]`
      abbrev is_token_code : ℕ → Bool
      is_token_code c =
          is_letter_or_digit c || (c == 43) || (c == 47) || (c == 61) || (c == 95) || (c == 45)

      abbrev long_run : List ℕ → List (List ℕ) → List (List ℕ)
      long_run run runs = if leb 32 (length run) then run ∷ runs else runs

      -- The longest runs of such code points: the one at the front, and those behind it of 32 or
      -- more
      unfoldable pub token_runs : List ℕ → List ℕ × List (List ℕ)
      token_runs [] = ([], [])
      token_runs (c ∷ cs) =
          let rest = token_runs cs in
          if is_token_code c then (c ∷ rest.0, rest.1) else ([], long_run rest.0 rest.1)

      abbrev entropy_finding : Place → List ℕ → Finding
      entropy_finding p token =
          security_finding "S2-secret-high-entropy" high p.tool
            ("high-entropy string in " <> p.where_ <> " may be a leaked credential")
            "verify this is not a secret; move credentials out of the surface" "MCP01:2025"
            (some (
              ("where", str p.where_)
              ∷ ("entropy", ratio_json (Ratio.round 100 (shannon_entropy token)))
              ∷ []))

      -- The loop over the tokens of a text, up to its `break`
      unfoldable pub first_entropy : Place → List (List ℕ) → List Finding
      first_entropy p [] = []
      first_entropy p (token ∷ rest) =
          let later = first_entropy p rest in
          if Ratio.ltb (ratio 43 10) (shannon_entropy token)
          then entropy_finding p token ∷ []
          else later

      abbrev secrets_at : Place → List Finding
      secrets_at p =
          let runs = token_runs (codes p.content) in
          pattern_findings (secret_finding p) (secret_patterns wide) p.content
          ++ first_entropy p (long_run runs.0 runs.1)

      -- `scan_secrets`
      unfoldable pub scan_secrets : ServerSurface → List Finding
      scan_secrets surface = flat_map secrets_at (places surface)
