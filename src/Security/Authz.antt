-- ===== src/Security/Authz.antt =====
-- src/mcp_quality/security/authz.py: the checks of advertised authorization metadata.
use mcp_probe.Base.{
  String, List, ℕ, Bool, Option, true, none, ◌∷◌, str_eq, if◌then◌else◌, some, flat_map, codes,
  ◌&&◌, filter, [], false, has_prefix, not, map, ◌++◌, ◌<>◌, is_empty, all,
}
use mcp_probe.Base.Json.{
  field, Json, Fields, null, str, arr, obj, nil, cons, items, strs, truthy, truthy?, find_field,
}
use mcp_probe.Base.Regex.{
  Wide, Regex, ends, dot, many, text, texts, seq, any_of, matches_in, found, is_blank,
}
use mcp_probe.Models.{Finding, Severity, medium, high, ServerSurface, is_read_only}
use mcp_probe.Contract.Errors.{Writers}
use mcp_probe.Contract.Errors.Patterns.{as_word}

-- `_BROAD_SCOPE`, behind its `^`
unfoldable pub broad_scope : Regex
broad_scope = seq (
    any_of (text true "*") (
      text true "all"
      ∷ text true "admin"
      ∷ text true "root"
      ∷ text true "full_access"
      ∷ text true "superuser"
      ∷ text true "write:*"
      ∷ seq (many dot ∷ text true ":*" ∷ [])
      ∷ [])
    ∷ ends
    ∷ [])

-- `_WRITE_SCOPE`
unfoldable pub write_scope : Regex
write_scope =
    as_word (texts true "write" ("manage" ∷ "admin" ∷ "delete" ∷ "modify" ∷ "create" ∷ "full" ∷ []))

-- The first of the keys whose value is an object that is not empty
unfoldable pub first_block : Fields → List String → Option Fields
first_block caps [] = none
first_block caps (k ∷ ks) = elim (find_field k caps) [
  | some (obj (field j v fs)) ↦ some (field j v fs)
  | _ ↦ first_block caps ks
]

-- `auth_block`
unfoldable pub auth_block : ServerSurface → Option Fields
auth_block surface =
    first_block surface.capabilities ("authorization" ∷ "oauth" ∷ "oauth2" ∷ "auth" ∷ [])

-- `auth.get(k) or ...`: the first of the keys with a truthy value, else the last one's value
abbrev pub first_truthy : Fields → String → List String → Json
first_truthy auth k [] = elim (find_field k auth) [ none ↦ null | some v ↦ v ]
first_truthy auth k (j ∷ js) =
    let others = first_truthy auth j js in
    if truthy? (find_field k auth)
    then elim (find_field k auth) [ none ↦ null | some v ↦ v ]
    else others

-- `_resource_indicator`
unfoldable pub resource_indicator : Fields → Json
resource_indicator auth =
    first_truthy auth "resource" ("resource_indicators" ∷ "audience" ∷ "aud" ∷ [])

-- `resource in ("*", ["*"])`
abbrev pub is_wildcard : Json → Bool
is_wildcard (str s) = str_eq s "*"
is_wildcard (arr (cons (str s) nil)) = str_eq s "*"
is_wildcard v = false

-- `_f`
abbrev authz_finding : String → Severity → String → String → Finding
authz_finding code severity message remediation = record {
  family = "security";
  code = code;
  severity = severity;
  message = message;
  tool = none;
  remediation = some remediation;
  owasp_id = some "MCP07:2025";
  source = "builtin";
  evidence = none;
}

abbrev when : Bool → Finding → List Finding
when test f = if test then f ∷ [] else []

-- A URL that starts with `http://`
abbrev insecure_at : Fields → String → List Finding
insecure_at auth key = elim (find_field key auth) [
  | some (str url) ↦ when (has_prefix (codes "http://") (codes url)) (
      authz_finding "A3-insecure-authz" high ("authorization " <> key <> " is not HTTPS: " <> url)
        "serve all authorization endpoints over HTTPS")
  | _ ↦ []
]

-- The findings on the flows
unfoldable pub flow_findings : Fields → List Finding
flow_findings auth =
    flat_map (insecure_at auth)
      ("issuer" ∷ "authorization_endpoint" ∷ "token_endpoint" ∷ "resource" ∷ [])

-- The findings on issuer and audience
unfoldable pub audience_findings : Fields → List Finding
audience_findings auth =
    let resource = resource_indicator auth in
    when (truthy (first_truthy auth "issuer" ("iss" ∷ [])) && not (truthy resource)) (
      authz_finding "A2-audience-hygiene" medium
        "authorization declares an issuer but no resource indicator (audience)"
        "declare a concrete resource indicator so tokens can't be replayed cross-audience")
    ++ when (is_wildcard resource) (
        authz_finding "A2-audience-hygiene" medium
          "resource indicator (audience) is a wildcard — any audience is accepted"
          "pin the resource indicator to this server's concrete resource URI")

module _ (wide : Wide) (writers : Writers) where
  -- A word that ends, put to the words behind it.
  abbrev add_word : List ℕ → List String → List String
  add_word [] ws = ws
  add_word (c ∷ cs) ws = writers.of_codes (c ∷ cs) ∷ ws

  -- `raw.split()`: the word that stands at the front, and the words behind it
  abbrev split_words : List ℕ → List ℕ × List String
  split_words [] = ([], [])
  split_words (c ∷ cs) =
      let rest = split_words cs in
      if is_blank wide c then ([], add_word rest.0 rest.1) else (c ∷ rest.0, rest.1)

  abbrev as_text : Json → String
  as_text (str s) = s
  as_text v = writers.show v

  -- `_scopes`
  unfoldable pub scopes : Fields → List String
  scopes auth =
      elim (first_truthy auth "scopes" ("scopes_supported" ∷ "required_scopes" ∷ "scope" ∷ [])) [
        | str s ↦ (let found_words = split_words (codes s) in add_word found_words.0 found_words.1)
        | arr xs ↦ map as_text (items xs)
        | _ ↦ []
      ]

  abbrev is_broad : String → Bool
  is_broad s = matches_in wide broad_scope (codes s)

  abbrev is_write_scope : String → Bool
  is_write_scope s = found wide write_scope s && not (is_broad s)

  -- The findings on scopes
  unfoldable pub scope_findings : ServerSurface → Fields → List Finding
  scope_findings surface auth =
      let all_scopes = scopes auth in
      let broad = filter is_broad all_scopes in
      let write_scopes = filter is_write_scope all_scopes in
      when (not (is_empty broad)) (
        authz_finding "A1-scope-overgrant" medium
          ("declares broad OAuth scope(s) "
            <> writers.show (strs broad)
            <> " — far more than any tool needs")
          "request the narrowest scopes the tool set actually uses (least privilege)")
      ++ when
          (not (is_empty surface.tools)
            && all is_read_only surface.tools
            && not (is_empty write_scopes))
          (authz_finding "A1-scope-overgrant" medium
            ("every tool is read-only but the server requests write scope(s) "
              <> writers.show (strs write_scopes))
            "drop write/manage scopes — a read-only tool set should request read scopes only")

  -- `scan_authorization`
  unfoldable pub scan_authorization : ServerSurface → List Finding
  scan_authorization surface = elim (auth_block surface) [
    | none ↦ []
    | some auth ↦ scope_findings surface auth ++ audience_findings auth ++ flow_findings auth
  ]
