-- ===== src/Cli/Examples.antt =====
-- Examples of command lines.
use mcp_probe.Cli.Families.{load_config-families_from_args, families_field}
use mcp_probe.Config.{
  setting, probe_fields, field_spelled, coerce, load_config, set_field, candidates, from_env,
  from_file, ProbeConfig,
}
use mcp_probe.Base.Regex.{Wide}
use mcp_probe.Cli.{overrides, part_at_colon, families_from_args, Args}
use mcp_probe.Base.{codes, ◌≡◌, false, true, none, some, [], ◌∷◌, refl}
use mcp_probe.Base.Dict.{Dict, insert}
use mcp_probe.Report.Rollup.{all_families}
use mcp_probe.Base.Json.{Json, str, strs}

abbrev ascii : Wide
ascii = record { word = λ c. false; space = λ c. false; digit = λ c. false }

-- `mcp-quality run srv --security --experimental`
abbrev args : Args
args = record {
  command = "run";
  target = "srv";
  dump = "";
  has_families = true;
  all_families = false;
  legibility = false;
  performance = false;
  security = true;
  deep_security = false;
  safety = false;
  experimental = true;
  allow_writes = false;
  no_regressions = false;
  json_out = false;
  response_bloat = false;
  fail_under_family = none;
  headers = [];
  models = none;
  texts = [];
  numbers = [];
}

flagged_families : families_from_args args ≡ "contract" ∷ "cost" ∷ "security" ∷ "spec" ∷ []
unfolding families_from_args
flagged_families = refl

-- With `--all` the flag `--experimental` adds nothing.
all_alone : families_from_args (record args { all_families = true }) ≡ all_families
unfolding families_from_args
all_alone = refl

colon_split : part_at_colon (codes "k: v") ≡ some (codes "k", codes " v")
unfolding part_at_colon
colon_split = refl

abbrev from_environ : Dict Json
from_environ = ("families", str "legibility") ∷ []

environ_read :
    from_env ascii (λ s. none) (λ s. none) [] (("MCP_PROBE_FAMILIES", "legibility") ∷ [])
    ≡ some from_environ
unfolding from_env set_field coerce field_spelled probe_fields insert
environ_read = refl

no_file : from_file (candidates (λ d n. none) []) ≡ some []
unfolding from_file candidates
no_file = refl

load_config-families_from_args_example :
    (config : ProbeConfig) × (load_config ascii
        (λ s. none)
        (λ s. none)
        (("MCP_PROBE_FAMILIES", "legibility") ∷ [])
        (λ d n. none)
        []
        (overrides ascii (λ cs. "") args)
      ≡ some config)
    × (setting config families_field ≡ strs (families_from_args args))
load_config-families_from_args_example =
    load_config-families_from_args ascii (λ cs. "") (λ s. none) (λ s. none)
      (("MCP_PROBE_FAMILIES", "legibility") ∷ []) (λ d n. none) [] args from_environ [] environ_read
      no_file refl
