-- ===== src/Config.antt =====
-- src/mcp_quality/config.py: the options and their layers. Python's `int`, `float` and the
-- TOML reader are parameters; an exception is `none`, the value None is `null`.
pub mod Precedence
mod Examples
pub mod Known
use mcp_probe.Base.Regex.{Wide, lower_text, strip_blank}
use mcp_probe.Base.{
  ◌>>=◌, find?, drop, String, List, ℕ, Option, Bool, some, none, ◌∷◌, str_eq, true, if◌then◌else◌,
  codes, [], false, zero, suc, inl, inr, is_some, codes_eq, has_prefix, ◌&&◌, ◌||◌, ◌==◌, map,
  option_or,
}
use mcp_probe.Base.Dict.{Dict, get, update, of_pairs, insert}
use mcp_probe.Base.Json.{
  Json, Fields, null, bool, nat, str, arr, obj, end, nil, strs, fields, find_field,
}

pub record Field : Type 0 where
  pub name : String
  pub type : String
  pub default : Json

abbrev fld : String → String → Json → Field
fld name type default = record { name = name; type = type; default = default }

-- `FAST_PATH_FAMILIES`
abbrev pub fast_path_families : List String
fast_path_families = "contract" ∷ "cost" ∷ []

-- The fields of `ProbeConfig`: `f.name`, `f.type` as the source spells it, the default
unfoldable pub probe_fields : List Field
probe_fields =
    fld "target" "str" (str "")
    ∷ fld "transport" "str" (str "auto")
    ∷ fld "static_path" "str | None" null
    ∷ fld "stdio_timeout" "float" (nat 60)
    ∷ fld "headers" "dict[str, str]" (obj end)
    ∷ fld "families" "tuple[str, ...]" (strs fast_path_families)
    ∷ fld "allow_writes" "bool" (bool false)
    ∷ fld "fail_under" "str | None" null
    ∷ fld "fail_under_family" "dict[str, str]" (obj end)
    ∷ fld "no_regressions" "bool" (bool false)
    ∷ fld "reliability_k" "int" (nat 1)
    ∷ fld "model" "str | None" null
    ∷ fld "models" "tuple[str, ...]" (arr nil)
    ∷ fld "seed" "int" (nat 42)
    ∷ fld "goal_set_version" "str" (str "1")
    ∷ fld "goals_path" "str | None" null
    ∷ fld "price_points" "tuple[str, ...]" (arr nil)
    ∷ fld "tokenizer" "str" (str "o200k_base")
    ∷ fld "token_model" "str | None" null
    ∷ fld "response_bloat" "bool" (bool false)
    ∷ fld "concurrency" "int" (nat 50)
    ∷ fld "load_duration" "float" (nat 10)
    ∷ fld "distributed" "int" (nat 0)
    ∷ fld "distributed_workers" "int" (nat 0)
    ∷ fld "worker_command" "str | None" null
    ∷ fld "deep_security" "bool" (bool false)
    ∷ fld "experimental" "bool" (bool false)
    ∷ fld "json_out" "bool" (bool false)
    ∷ fld "html_out" "str | None" null
    ∷ fld "emit_stampede" "str | None" null
    ∷ fld "snapshot_path" "str" (str ".mcp-quality/snapshot.json")
    ∷ fld "cache_dir" "str" (str ".mcp-quality/cache")
    ∷ []

-- The field of a name
unfoldable pub field_of : String → Option Field
field_of name = find? (λ (f : Field). str_eq f.name name) probe_fields

-- `{k: v for k, v in overrides.items() if v is not None}`
abbrev pub clean : Dict Json → Dict Json
clean [] = []
clean ((k, null) ∷ d) = clean d
clean ((k, v) ∷ d) = (k, v) ∷ clean d

-- A `ProbeConfig`: the values given to its constructor. A field not given has its default.
pub record ProbeConfig : Type 0 where
  pub given : Dict Json

-- Every name is a field's; any other is a TypeError of the constructor.
abbrev pub known : Dict Json → Bool
known [] = true
known ((k, v) ∷ d) = is_some (field_of k) && known d

-- `ProbeConfig(**d)`
unfoldable pub construct : Dict Json → Option ProbeConfig
construct d = if known d then some (record { given = d }) else none

-- `replace(self, **d)`
unfoldable pub replace : ProbeConfig → Dict Json → Option ProbeConfig
replace config d = if known d then some (record { given = update config.given d }) else none

-- `config.<name>`
unfoldable pub setting : ProbeConfig → Field → Json
setting config f = option_or (get f.name config.given) f.default

-- `ProbeConfig.with_overrides`
unfoldable pub with_overrides : ProbeConfig → Dict Json → Option ProbeConfig
with_overrides config overrides = replace config (clean overrides)

-- `raw.strip().lower() in ("1", "true", "yes", "on")`
abbrev says_yes : Wide → String → Bool
says_yes wide raw =
    let word = lower_text (strip_blank wide (codes raw)) in
    codes_eq word (codes "1")
    || codes_eq word (codes "true")
    || codes_eq word (codes "yes")
    || codes_eq word (codes "on")

-- The field whose name has these code points
unfoldable pub field_spelled : List ℕ → Option Field
field_spelled cs = find? (λ (f : Field). codes_eq (codes f.name) cs) probe_fields

-- The field that an environment variable sets: `key[len(ENV_PREFIX):].lower()`
abbrev pub env_field : String → Option Field
env_field key =
    if has_prefix (codes "MCP_PROBE_") (codes key)
    then field_spelled (lower_text (drop 10 (codes key)))
    else none

-- `k.replace("-", "_")`
abbrev pub underscored : List ℕ → List ℕ
underscored cs = map (λ c. if c == 45 then 95 else c) cs

-- An item whose key is a field is kept under the field's name.
abbrev pub keep_item : Option Field → Json → Dict Json → Dict Json
keep_item none v d = d
keep_item (some f) v d = (f.name, v) ∷ d

-- The items of a table whose keys, respelled, are fields.
abbrev pub known_items : List (String × Json) → List (String × Json)
known_items [] = []
known_items ((k, v) ∷ ps) = keep_item (field_spelled (underscored (codes k))) v (known_items ps)

-- `section.items()` in the comprehension of `_from_file`
abbrev pub section_items : Json → Option (Dict Json)
section_items (obj fs) = some (of_pairs (known_items (fields fs)))
section_items v = none

-- `data.get("tool", {}).get("mcp-quality", data)`
abbrev pub section : Fields → Option Json
section table = elim (find_field "tool" table) [
  | none ↦ some (obj table)
  | some (obj tool) ↦ some (elim (find_field "mcp-quality" tool) [ none ↦ obj table | some v ↦ v ])
  | some v ↦ none
]

module _ (wide : Wide) (int float : String → Option Json) where
  -- `_coerce`
  unfoldable pub coerce : String → String → Option Json
  coerce type raw =
      if str_eq type "bool"
      then some (bool (says_yes wide raw))
      else if str_eq type "int"
      then int raw
      else if str_eq type "float"
      then float raw
      else some (str raw)

  -- What a variable does to `out`
  unfoldable pub set_field : Option Field → String → Dict Json → Option (Dict Json)
  set_field none raw out = some out
  set_field (some f) raw out = coerce f.type raw >>= λ v. some (insert f.name v out)

  -- The loop of `_from_env` over `os.environ`
  unfoldable pub from_env : Dict Json → List (String × String) → Option (Dict Json)
  from_env out [] = some out
  from_env out ((key, raw) ∷ rest) =
      set_field (env_field key) raw out >>= λ next. from_env next rest

-- What stands at a candidate path: `none` is no file, `some none` what `tomllib` refuses
abbrev pub Candidate : Type 0
Candidate = Option (Option Fields)

-- `_from_file`: the candidates of every directory from the nearest up, in order
unfoldable pub from_file : List Candidate → Option (Dict Json)
from_file [] = some []
from_file (none ∷ rest) = from_file rest
from_file (some none ∷ rest) = none
from_file (some (some table) ∷ rest) = section table >>= section_items

-- `{p / name for p in directories for name in DEFAULT_CONFIG_FILENAMES}`, in their order
unfoldable pub candidates : (String → String → Candidate) → List String → List Candidate
candidates at_path [] = []
candidates at_path (directory ∷ rest) =
    at_path directory ".mcp-quality.toml"
    ∷ at_path directory "mcp-quality.toml"
    ∷ candidates at_path rest

module _ (wide : Wide) (int float : String → Option Json) where
  -- `load_config`
  unfoldable pub load_config :
      List (String × String)
      → (String → String → Candidate)
      → List String
      → Dict Json
      → Option ProbeConfig
  load_config environ at_path directories cli_overrides = do
    env ← from_env wide int float [] environ
    file ← from_file (candidates at_path directories)
    construct (update (update (update [] env) file) (clean cli_overrides))
