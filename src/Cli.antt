-- ===== src/Cli.antt =====
-- src/mcp_quality/cli.py: from parsed arguments to the configuration. The parser of the arguments is
-- not modelled; `of_codes` is the text of code points.
pub mod Families
mod Examples
use mcp_probe.Config.{fast_path_families}
use mcp_probe.Report.Rollup.{all_families}
use mcp_probe.Base.{
  ◌&&◌, is_empty, text_or_empty, ◌||◌, true, not, ◌>>=◌, filter, str_eq, ◌++◌, codes, upper_code,
  elem, ◌==◌, map, if◌then◌else◌, ℕ, Option, Bool, List, [], ◌∷◌, some, none, String,
}
use mcp_probe.Base.Dict.{get, Dict, insert}
use mcp_probe.Base.Regex.{Wide, strip_blank, lower_text}
use mcp_probe.Base.Json.{bool, strs, of_fields, str, obj, Json, null}

-- The namespace of the commands run, static and snapshot, as far as `_config_from_args` reads it;
-- `has_families` says whether the command has the family flags
pub record Args : Type 0 where
  pub command : String
  pub target : String
  pub dump : String
  pub has_families : Bool
  pub all_families : Bool
  pub legibility : Bool
  pub performance : Bool
  pub security : Bool
  pub deep_security : Bool
  pub safety : Bool
  pub experimental : Bool
  pub allow_writes : Bool
  pub no_regressions : Bool
  pub json_out : Bool
  pub response_bloat : Bool
  pub fail_under_family : Option String
  pub headers : List String
  pub models : Option String
  pub texts : Dict (Option String)
  pub numbers : Dict (Option Json)

-- `_families_from_args`
abbrev pub flagged : Args → String → Bool
flagged args f =
    elem f fast_path_families
    || (args.legibility && str_eq f "legibility")
    || (args.performance && str_eq f "performance")
    || ((args.security || args.deep_security) && str_eq f "security")
    || (args.safety && str_eq f "safety")

unfoldable pub families_from_args : Args → List String
families_from_args args =
    if args.all_families
    then all_families
    else filter (flagged args) all_families ++ (if args.experimental then "spec" ∷ [] else [])

-- `_true_or_none`
abbrev true_or_none : Bool → Json
true_or_none flag = if flag then bool true else null

-- `text.split(sep)`
unfoldable pub split_at : ℕ → List ℕ → List ℕ → List (List ℕ)
split_at sep part [] = part ∷ []
split_at sep part (c ∷ cs) =
    let ended = c == sep in
    let rest = split_at sep (if ended then [] else part ++ c ∷ []) cs in
    if ended then part ∷ rest else rest

-- `text.partition(":")`, where there is a colon
unfoldable pub part_at_colon : List ℕ → Option (List ℕ × List ℕ)
part_at_colon [] = none
part_at_colon (c ∷ cs) =
    let rest = part_at_colon cs in
    if c == 58 then some ([], cs) else (rest >>= (λ (p : List ℕ × List ℕ). some (c ∷ p.0, p.1)))

-- `out or None`
abbrev pub dict_or_none : Dict Json → Json
dict_or_none [] = null
dict_or_none (p ∷ ps) = obj (of_fields (p ∷ ps))

abbrev list_or_none : List String → Json
list_or_none [] = null
list_or_none (s ∷ ss) = strs (s ∷ ss)

-- `getattr(args, name, None)` of a text or a number
abbrev text_of : String → Dict (Option String) → Json
text_of k d = elim (get k d) [ some (some s) ↦ str s | _ ↦ null ]

abbrev number_of : String → Dict (Option Json) → Json
number_of k d = elim (get k d) [ some (some v) ↦ v | _ ↦ null ]

-- `overrides["target"]` and `overrides["static_path"]`
abbrev pub subject : Args → Dict Json
subject args =
    if str_eq args.command "run"
    then ("target", str args.target) ∷ []
    else if str_eq args.command "static"
    then ("static_path", str args.dump) ∷ []
    else []

module _ (wide : Wide) (of_codes : List ℕ → String) where
  -- One part of a list of pairs
  abbrev add_pair :
      (List ℕ → List ℕ) → (List ℕ → List ℕ) → Option (List ℕ × List ℕ) → Dict Json → Dict Json
  add_pair key value none out = out
  add_pair key value (some (k, v)) out =
      insert (of_codes (key (strip_blank wide k))) (str (of_codes (value (strip_blank wide v)))) out

  unfoldable pub add_pairs :
      (List ℕ → List ℕ) → (List ℕ → List ℕ) → List (List ℕ) → Dict Json → Dict Json
  add_pairs key value [] out = out
  add_pairs key value (part ∷ parts) out =
      add_pairs key value parts (add_pair key value (part_at_colon part) out)

  -- `_parse_headers`
  unfoldable pub parse_headers : List String → Json
  parse_headers raw =
      dict_or_none (add_pairs (λ cs. cs) (λ cs. cs) (map (λ (s : String). codes s) raw) [])

  -- `_parse_family_gates`; `upper()` is that of the code points that can come out as ASCII
  unfoldable pub parse_family_gates : Option String → Json
  parse_family_gates raw = dict_or_none (
      add_pairs lower_text (λ cs. map upper_code cs) (split_at 44 [] (codes (text_or_empty raw)))
        [])

  -- `_parse_models`
  unfoldable pub parse_models : Option String → Json
  parse_models raw = list_or_none (
      map of_codes (
        filter (λ (cs : List ℕ). not (is_empty cs))
          (map (strip_blank wide) (split_at 44 [] (codes (text_or_empty raw))))))

  -- `overrides`
  unfoldable pub overrides : Args → Dict Json
  overrides args =
      ("fail_under", text_of "fail_under" args.texts)
      ∷ ("fail_under_family", parse_family_gates args.fail_under_family)
      ∷ ("headers", parse_headers args.headers)
      ∷ ("no_regressions", true_or_none args.no_regressions)
      ∷ ("allow_writes", true_or_none args.allow_writes)
      ∷ ("json_out", true_or_none args.json_out)
      ∷ ("html_out", text_of "html_out" args.texts)
      ∷ ("emit_stampede", text_of "emit_stampede" args.texts)
      ∷ ("snapshot_path", text_of "snapshot_path" args.texts)
      ∷ ("stdio_timeout", number_of "stdio_timeout" args.numbers)
      ∷ ("transport", text_of "transport" args.texts)
      ∷ ("deep_security", true_or_none args.deep_security)
      ∷ ("experimental", true_or_none args.experimental)
      ∷ ("model", text_of "model" args.texts)
      ∷ ("models", parse_models args.models)
      ∷ ("token_model", text_of "token_model" args.texts)
      ∷ ("response_bloat", true_or_none args.response_bloat)
      ∷ ("seed", number_of "seed" args.numbers)
      ∷ ("concurrency", number_of "concurrency" args.numbers)
      ∷ ("distributed", number_of "distributed" args.numbers)
      ∷ ("distributed_workers", number_of "distributed_workers" args.numbers)
      ∷ ("worker_command", text_of "worker_command" args.texts)
      ∷ ("reliability_k", number_of "reliability_k" args.numbers)
      ∷ ("families", if args.has_families then strs (families_from_args args) else null)
      ∷ subject args
