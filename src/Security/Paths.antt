-- ===== src/Security/Paths.antt =====
-- src/mcp_quality/security/path_traversal.py: path parameters without a constraint.
use mcp_probe.Base.{
  String, List, ℕ, Bool, Option, ◌∷◌, leb, ◌||◌, false, codes, any, some, [], ◌<>◌, if◌then◌else◌,
  flat_map, ◌&&◌, not, codes_eq, join, is_empty, lower_code, map,
}
use mcp_probe.Base.Json.{Json, obj, strs, of_fields, fields, truthy?, find_field}
use mcp_probe.Models.{Finding, medium, ServerSurface, ToolDef}
use mcp_probe.Contract.Errors.{Writers}

-- `_PATH_TOKENS`
abbrev pub path_tokens : List String
path_tokens =
    "path" ∷ "paths" ∷ "filepath" ∷ "filepaths" ∷ "fpath" ∷ "file" ∷ "files" ∷ "filename"
    ∷ "filenames" ∷ "dir" ∷ "dirs" ∷ "directory" ∷ "directories" ∷ "dirpath" ∷ "folder" ∷ "folders"
    ∷ "pathname" ∷ []

abbrev is_lower : ℕ → Bool
is_lower c = leb 97 c && leb c 122

abbrev is_upper : ℕ → Bool
is_upper c = leb 65 c && leb c 90

abbrev is_decimal : ℕ → Bool
is_decimal c = leb 48 c && leb c 57

abbrev is_alnum : ℕ → Bool
is_alnum c = is_lower c || is_upper c || is_decimal c

abbrev head_is : (ℕ → Bool) → List ℕ → Bool
head_is p [] = false
head_is p (c ∷ cs) = p c

-- `_TOKEN_SPLIT` has an empty match between `a` and what follows.
abbrev pub breaks_after : ℕ → List ℕ → Bool
breaks_after a [] = false
breaks_after a (b ∷ cs) =
    ((is_lower a || is_decimal a) && is_upper b)
    || (is_upper a && is_upper b && head_is is_lower cs)

abbrev pub end_token : List ℕ → List (List ℕ) → List (List ℕ)
end_token [] ts = ts
end_token (c ∷ cs) ts = (c ∷ cs) ∷ ts

-- `_TOKEN_SPLIT.split(name)` in lower case, without the empty parts: the token that stands at the
-- front, and those behind it
unfoldable pub split_tokens : List ℕ → List ℕ × List (List ℕ)
split_tokens [] = ([], [])
split_tokens (c ∷ cs) =
    let rest = split_tokens cs in
    if not (is_alnum c)
    then ([], end_token rest.0 rest.1)
    else if breaks_after c cs
    then (lower_code c ∷ [], end_token rest.0 rest.1)
    else (lower_code c ∷ rest.0, rest.1)

-- `_is_path_param`
unfoldable pub is_path_param : String → Bool
is_path_param name =
    let found = split_tokens (codes name) in
    any (λ t. any (λ p. codes_eq (codes p) t) path_tokens) (end_token found.0 found.1)

-- `_is_constrained`
unfoldable pub is_constrained : Json → Bool
is_constrained (obj fs) =
    any (λ k. truthy? (find_field k fs)) ("enum" ∷ "pattern" ∷ "format" ∷ "const" ∷ [])
is_constrained v = false

-- The loop of `_unconstrained_path_params`
unfoldable pub flagged_params : List (String × Json) → List String
flagged_params [] = []
flagged_params ((param, schema) ∷ rest) =
    let others = flagged_params rest in
    if is_path_param param && not (is_constrained schema) then param ∷ others else others

abbrev params_at : Option Json → List String
params_at (some (obj props)) = flagged_params (fields props)
params_at _ = []

-- `_unconstrained_path_params`; a schema that is no object has none here, where the code raises
unfoldable pub unconstrained_path_params : Json → List String
unconstrained_path_params (obj fs) = params_at (find_field "properties" fs)
unconstrained_path_params v = []

module _ (writers : Writers) where
  abbrev traversal_finding : String → List String → Finding
  traversal_finding name flagged = record {
    family = "security";
    code = "S4-path-traversal-surface";
    severity = medium;
    message =
        "tool '"
        <> name
        <> "' takes path-like parameter(s) "
        <> join ", " (map (λ p. writers.quote (codes p)) flagged)
        <> " with no schema constraint — a traversal payload (e.g. '../../etc/passwd') could "
        <> "escape the intended root";
    tool = some name;
    remediation = some (
        "constrain the parameter (JSON Schema pattern/enum/format) and resolve + "
        <> "validate the path against an allowed base directory server-side");
    owasp_id = some "MCP05:2025";
    source = "builtin";
    evidence = some (of_fields (("params", strs flagged) ∷ []));
  }

  -- The loop's body of `scan_path_traversal`
  abbrev tool_traversal : ToolDef → List Finding
  tool_traversal t =
      let flagged = unconstrained_path_params t.input_schema in
      if is_empty flagged then [] else traversal_finding t.name flagged ∷ []

  -- `scan_path_traversal`
  unfoldable pub scan_path_traversal : ServerSurface → List Finding
  scan_path_traversal surface = flat_map tool_traversal surface.tools
