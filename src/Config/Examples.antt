-- ===== src/Config/Examples.antt =====
-- Examples of configuration.
use mcp_probe.Base.{
  String, List, Option, some, none, refl, false, [], ◌≡◌, if◌then◌else◌, ◌∷◌, str_eq, true,
  option_or,
}
use mcp_probe.Base.Dict.{Dict, insert, of_pairs, last}
use mcp_probe.Base.Regex.{Wide}
use mcp_probe.Base.Json.{Json, nat, of_fields, null}
use mcp_probe.Config.{
  Candidate, Field, ProbeConfig, clean, known, from_env, from_file, candidates, load_config,
  setting, coerce, set_field, field_spelled, probe_fields, field_of,
}
use mcp_probe.Config.Precedence.{over, setting-load_config}

abbrev ascii : Wide
ascii = record { word = λ c. false; space = λ c. false; digit = λ c. false }

abbrev to_int : String → Option Json
to_int raw = some (nat 7)

abbrev seed_field : Field
seed_field = record { name = "seed"; type = "int"; default = nat 42 }

abbrev at_path : String → String → Candidate
at_path directory name =
    if str_eq name "mcp-quality.toml"
    then some (some (of_fields (("seed", nat 5) ∷ ("reliability-k", nat 3) ∷ [])))
    else none

abbrev environ : List (String × String)
environ = ("HOME", "/root") ∷ ("MCP_PROBE_SEED", "7") ∷ []

abbrev flags : Dict Json
flags = ("seed", null) ∷ ("reliability_k", nat 9) ∷ []

abbrev from_environ : Dict Json
from_environ = ("seed", nat 7) ∷ []

abbrev from_toml : Dict Json
from_toml = ("seed", nat 5) ∷ ("reliability_k", nat 3) ∷ []

env_read : from_env ascii to_int to_int [] environ ≡ some from_environ
unfolding from_env set_field coerce field_spelled probe_fields insert
env_read = refl

file_read : from_file (candidates at_path ("/work" ∷ "/" ∷ [])) ≡ some from_toml
unfolding from_file candidates of_pairs field_spelled probe_fields insert
file_read = refl

known_all : known (clean flags) ≡ true
unfolding field_of probe_fields
known_all = refl

setting-load_config_example :
    (config : ProbeConfig) × (load_config ascii to_int to_int environ at_path
        ("/work" ∷ "/" ∷ [])
        flags
      ≡ some config)
    × (setting config seed_field
        ≡ option_or
            (over
              (last "seed" (clean flags) none)
              (over (last "seed" from_toml none) (last "seed" from_environ none)))
            (nat 42))
setting-load_config_example =
    setting-load_config ascii to_int to_int environ at_path ("/work" ∷ "/" ∷ []) flags from_environ
      from_toml seed_field env_read file_read known_all
