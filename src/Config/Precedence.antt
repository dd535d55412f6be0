-- ===== src/Config/Precedence.antt =====
-- src/mcp_quality/config.py: the layers override one another in their order.
use mcp_probe.Base.{
  String, List, Option, some, ◌≡◌, [], ◌∷◌, none, option_or, ◌∙◌, refl, arith, ap, true,
}
use mcp_probe.Base.Dict.{Dict, get, update, last, get-update}
use mcp_probe.Base.Regex.{Wide}
use mcp_probe.Base.Json.{Json}
use mcp_probe.Config.Known.{known-update, known-from_env, known-from_file}
use mcp_probe.Config.{
  known, ProbeConfig, Candidate, Field, clean, construct, setting, from_env, from_file, candidates,
  load_config, known,
}

-- The value of a name that the last of the overrides sets, else what `o` has.
abbrev pub over : Option Json → Option Json → Option Json
over (some v) o = some v
over none o = o

last-over : (k : String) (d : Dict Json) (o : Option Json) → last k d o ≡ over (last k d none) o
last-over k [] o = refl
last-over k ((j, v) ∷ d) o = ground (arith, last-over k d o, last-over k d (some v))

get-layers :
    (k : String) (env file flags : Dict Json)
    → get k (update (update (update [] env) file) flags)
      ≡ over (last k flags none) (over (last k file none) (last k env none))
unfolding get
get-layers k env file flags =
    get-update k (update (update [] env) file) flags
    ∙ ap (last k flags) (get-update k (update [] env) file ∙ ap (last k file) (get-update k [] env))
    ∙ last-over k flags _
    ∙ ap (over (last k flags none)) (last-over k file (last k env none))

module _ (wide : Wide) (to_int to_float : String → Option Json) where
  -- Where the environment and the file can be read and every flag names a field, the load
  -- succeeds, and a field's value is that of the last flag that names it with a value, else the
  -- file's, else the environment's, else the default.
  pub setting-load_config :
      (environ : List (String × String)) (at_path : String → String → Candidate)
      (directories : List String) (flags env file : Dict Json) (f : Field)
      → from_env wide to_int to_float [] environ ≡ some env
      → from_file (candidates at_path directories) ≡ some file
      → known (clean flags) ≡ true
      → (config : ProbeConfig) × (load_config wide to_int to_float environ at_path directories flags
          ≡ some config)
        × (setting config f
            ≡ option_or
                (over
                  (last f.name (clean flags) none)
                  (over (last f.name file none) (last f.name env none)))
                f.default)
  unfolding load_config construct setting
  setting-load_config environ at_path directories flags env file f e g k =
      let merged = update (update (update [] env) file) (clean flags) in
      let fine : known merged ≡ true =
        known-update (update (update [] env) file) (clean flags)
          (known-update (update [] env) file
            (known-update [] env refl (known-from_env wide to_int to_float environ [] env refl e))
            (known-from_file (candidates at_path directories) file g))
          k in
      (
        record { given = merged },
        rw (e, g) (rw fine refl),
        ap (λ o. option_or o f.default) (get-layers f.name env file (clean flags)),
      )
