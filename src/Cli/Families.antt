-- ===== src/Cli/Families.antt =====
-- src/mcp_quality/cli.py: which families a command line runs.
use mcp_probe.Config.Precedence.{setting-load_config}
use mcp_probe.Cli.{subject, families_from_args, Args, overrides}
use mcp_probe.Config.{
  setting, load_config, ProbeConfig, candidates, from_file, probe_fields, from_env, field_of,
  fast_path_families, Candidate, clean, Field, known,
}
use mcp_probe.Base.{
  none, true, false, sym, arith, str_eq, ℕ, if◌then◌else◌, ◌≡◌, Option, Bool, List, String, ◌∷◌, [],
  some, ap, refl, ◌∙◌,
}
use mcp_probe.Base.Dict.{Dict, last}
use mcp_probe.Base.Json.{strs, Json, null, bool, int, float, str, arr, obj}
use mcp_probe.Base.Regex.{Wide}

-- The value of an item, unless it is None
abbrev pub not_none : Json → Option Json → Option Json
not_none null o = o
not_none v o = some v

-- The last value of a key that is not None
abbrev last_set : String → Dict Json → Option Json → Option Json
last_set k [] o = o
last_set k ((j, v) ∷ d) o = last_set k d (if str_eq j k then not_none v o else o)

if-same : {A : Type 0} (b : Bool) (x : A) → (if b then x else x) ≡ x
if-same true x = refl
if-same false x = refl

last-clean : (k : String) (d : Dict Json) (o : Option Json) → last k (clean d) o ≡ last_set k d o
last-clean k [] o = refl
last-clean k ((j, null) ∷ d) o = last-clean k d o ∙ ap (last_set k d) (sym (if-same (str_eq j k) o))
last-clean k ((j, bool b) ∷ d) o = last-clean k d _
last-clean k ((j, int s n) ∷ d) o = last-clean k d _
last-clean k ((j, float x) ∷ d) o = last-clean k d _
last-clean k ((j, str s) ∷ d) o = last-clean k d _
last-clean k ((j, arr xs) ∷ d) o = last-clean k d _
last-clean k ((j, obj fs) ∷ d) o = last-clean k d _

known-clean : (d : Dict Json) → known d ≡ true → known (clean d) ≡ true
known-clean [] h = refl
known-clean ((j, null) ∷ d) h = known-clean d (ground arith)
known-clean ((j, bool b) ∷ d) h = ground (arith, known-clean d)
known-clean ((j, int s n) ∷ d) h = ground (arith, known-clean d)
known-clean ((j, float x) ∷ d) h = ground (arith, known-clean d)
known-clean ((j, str s) ∷ d) h = ground (arith, known-clean d)
known-clean ((j, arr xs) ∷ d) h = ground (arith, known-clean d)
known-clean ((j, obj fs) ∷ d) h = ground (arith, known-clean d)

abbrev pub families_field : Field
families_field = record {
  name = "families";
  type = "tuple[str, ...]";
  default = strs fast_path_families;
}

subject-known : (args : Args) → known (subject args) ≡ true
unfolding field_of probe_fields
subject-known args = ground arith

last_set-subject : (args : Args) (o : Option Json) → last_set "families" (subject args) o ≡ o
last_set-subject args o = ground arith

module _ (wide : Wide) (of_codes : List ℕ → String) (to_int to_float : String → Option Json) where
  overrides-known : (args : Args) → known (overrides wide of_codes args) ≡ true
  unfolding overrides field_of probe_fields
  overrides-known args = subject-known args

  last-overrides :
      (args : Args)
      → args.has_families ≡ true
      → last "families" (clean (overrides wide of_codes args)) none
        ≡ some (strs (families_from_args args))
  unfolding overrides
  last-overrides args h =
      last-clean "families" (overrides wide of_codes args) none
      ∙ last_set-subject args _
      ∙ rw h refl

  -- Whatever the environment and the file say, a command that has the family flags loads a
  -- configuration that runs exactly the families of its flags, where both can be read.
  pub load_config-families_from_args :
      (environ : List (String × String)) (at_path : String → String → Candidate)
      (directories : List String) (args : Args) (env file : Dict Json)
      → from_env wide to_int to_float [] environ ≡ some env
      → from_file (candidates at_path directories) ≡ some file
      → args.has_families ≡ true
      → (config : ProbeConfig) × (load_config wide to_int to_float environ at_path directories
            (overrides wide of_codes args)
          ≡ some config)
        × (setting config families_field ≡ strs (families_from_args args))
  load_config-families_from_args environ at_path directories args env file e g flagged_too =
      let (config, loaded, found) =
        setting-load_config wide to_int to_float environ at_path directories
          (overrides wide of_codes args) env file families_field e g
          (known-clean (overrides wide of_codes args) (overrides-known args)) in
      (config, loaded, rw (last-overrides args flagged_too) at found)
