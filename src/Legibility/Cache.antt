-- ===== src/Legibility/Cache.antt =====
-- src/mcp_quality/legibility/cache.py, and the parts of engines/legibility.py that ask a model or
-- the cache. SHA-256 and the readers and writers of the cache's files are parameters.
pub mod Hits
use mcp_probe.Base.{
  ◌>>=◌, String, List, ℕ, Bool, Option, ◌<>◌, [], ◌∷◌, some, none, true, false, zero, suc, inl, inr,
  show_nat, ◌++◌, if◌then◌else◌, text_or_empty, str_eq,
}
use mcp_probe.Base.Dict.{Dict, get, insert}
use mcp_probe.Base.Sorting.{sort_texts, dedup}
use mcp_probe.Models.{ToolDef, ServerSurface, tool}
use mcp_probe.Legibility.Probe.{
  Provider, Probe, Confusion, Rewrite, comprehension_probe, tool_pairs,
}

-- What the engine reads and writes: the models' state, and the texts of the cache's files
pub record World (M : Type 0) : Type 0 where
  pub models : M
  pub files : Dict String

-- `cache_key`; `digest` is `hashlib.sha256(basis.encode()).hexdigest()[:24]`
unfoldable pub cache_key : (String → String) → String → String → ℕ → String → String
cache_key digest surface_hash model_id seed goal_set_version =
    digest (surface_hash <> "|" <> model_id <> "|" <> show_nat seed <> "|" <> goal_set_version)

-- `LegibilityCache._path`
abbrev pub path : String → String
path key = "legibility-" <> key <> ".json"

-- `LegibilityCache.get`; `read` is `json.loads`, `none` where the text is no JSON
unfoldable pub cache_get {ℓ} : {A : Type ℓ} → (String → Option A) → String → Dict String → Option A
cache_get read key files = get (path key) files >>= read

-- `LegibilityCache.put`
unfoldable pub cache_put {ℓ} : {A : Type ℓ} → (A → String) → String → A → Dict String → Dict String
cache_put write key value files = insert (path key) (write value) files

-- `targets`
abbrev pub rewrite_targets : Probe → List String
rewrite_targets p = elim p.top_confusion [
  | none ↦ p.low_tools
  | some c ↦ p.low_tools ++ c.golden ∷ c.chosen ∷ []
]

-- `confusers.get(name, [])`
abbrev pub confusers : Option Confusion → String → List String
confusers none name = []
confusers (some c) name =
    if str_eq name c.golden
    then c.chosen ∷ []
    else if str_eq name c.chosen
    then c.golden ∷ []
    else []

module _ {M : Type 0} (provider : Provider M) where
  -- One round of `_generate_rewrites`
  abbrev pub propose : Option ToolDef → Option Confusion → M → List Rewrite × M
  propose none top m = ([], m)
  propose (some t) top m =
      let old = text_or_empty t.description in
      let answer = provider.propose_rewrite m t.name old (confusers top t.name) in
      (record { tool = t.name; rewrite = answer.0; old = old } ∷ [], answer.1)

  -- The loop of `_generate_rewrites` over the sorted targets
  unfoldable pub propose_all : ServerSurface → Option Confusion → List String → M → List Rewrite × M
  propose_all surface top [] m = ([], m)
  propose_all surface top (name ∷ names) m =
      let one = propose (tool surface name) top m in
      let rest = propose_all surface top names one.1 in (one.0 ++ rest.0, rest.1)

  -- `_generate_rewrites`
  unfoldable pub generate_rewrites : ServerSurface → Probe → M → List Rewrite × M
  generate_rewrites surface p m =
      propose_all surface p.top_confusion (sort_texts (dedup (rewrite_targets p))) m

  -- The probe with its rewrites, when nothing is cached
  unfoldable pub fresh_probe : List (String × String) → ServerSurface → M → Probe × M
  fresh_probe goals surface m =
      let probe = comprehension_probe provider goals surface.tools m in
      let proposed = generate_rewrites surface probe.0 probe.1 in
      (record probe.0 { rewrites = proposed.0 }, proposed.1)

  -- `[model.choose_tool(g, tool_pairs) for g, _ in build_goals(ctx.surface)]`
  unfoldable pub ask_picks : List (String × String) → List (String × String) → M → List String × M
  ask_picks tools [] m = ([], m)
  ask_picks tools ((goal, golden) ∷ goals) m =
      let answer = provider.choose_tool m goal tools false in
      let rest = ask_picks tools goals answer.1 in (answer.0 ∷ rest.0, rest.1)

  module _ (digest : String → String) (write : Probe → String) (read : String → Option Probe) where
    abbrev pub probe_key : ServerSurface → String → String
    probe_key surface gsv =
        cache_key digest surface.surface_hash provider.model_id provider.seed gsv

    abbrev pub after_get :
        List (String × String)
        → ServerSurface
        → String
        → Option Probe
        → World M
        → (Probe × Bool) × World M
    after_get goals surface key (some p) w = ((p, true), w)
    after_get goals surface key none w =
        let fresh = fresh_probe goals surface w.models in
        ((fresh.0, false), record { models = fresh.1; files = cache_put write key fresh.0 w.files })

    -- `_run_or_cache`: the probe, whether it is a cache hit, and what is left behind
    unfoldable pub run_or_cache :
        List (String × String) → ServerSurface → String → World M → (Probe × Bool) × World M
    run_or_cache goals surface gsv w =
        after_get goals surface (probe_key surface gsv)
          (cache_get read (probe_key surface gsv) w.files) w

  module _ (digest : String → String) (write : List String → String)
      (read : String → Option (List String)) where
    abbrev after_picks :
        List (String × String)
        → ServerSurface
        → String
        → Option (List String)
        → World M
        → List String × World M
    after_picks goals surface key (some picks) w = (picks, w)
    after_picks goals surface key none w =
        let asked = ask_picks (tool_pairs surface.tools) goals w.models in
        (asked.0, record { models = asked.1; files = cache_put write key asked.0 w.files })

    -- `_panel_picks`
    unfoldable pub panel_picks :
        List (String × String) → ServerSurface → String → World M → List String × World M
    panel_picks goals surface gsv w =
        let key =
          cache_key digest surface.surface_hash provider.model_id provider.seed (gsv <> "|picks") in
        after_picks goals surface key (cache_get read key w.files) w
