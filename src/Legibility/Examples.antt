-- ===== src/Legibility/Examples.antt =====
-- Examples of a panel, of a model and of the cache.
use mcp_probe.Base.{String, List, ◌∷◌, [], ℕ, some, none, refl, false, true, ◌≡◌, ◌+◌}
use mcp_probe.Base.Ratio.{whole}
use mcp_probe.Base.Dict.{get}
use mcp_probe.Base.Regex.{Wide}
use mcp_probe.Models.Samples.{search_tool, one_tool}
use mcp_probe.Legibility.Probe.{Provider, Probe, comprehension_probe}
use mcp_probe.Legibility.Probe.Bounds.{IsRate, comprehension_probe-IsRate}
use mcp_probe.Legibility.Cache.{World, run_or_cache, fresh_probe, cache_get, probe_key}
use mcp_probe.Legibility.Cache.Hits.{with_models, run_or_cache-hit}

abbrev picks : List (List String)
picks = ("search" ∷ "fetch" ∷ []) ∷ ("search" ∷ "list" ∷ []) ∷ ("search" ∷ "fetch" ∷ "x" ∷ []) ∷ []

abbrev ascii : Wide
ascii = record { word = λ c. false; space = λ c. false; digit = λ c. false }

abbrev tools : List (String × String)
tools = ("search", "Searches.") ∷ ("fetch", "Fetches.") ∷ []

-- A model that counts its calls and always chooses one tool.
abbrev counting : Provider ℕ
counting = record {
  model_id = "stub";
  seed = 42;
  is_canonical = true;
  choose_tool = λ n goal ts allow_none. ("fetch", n + 1);
  propose_rewrite = λ n name old others. ("A clearer text.", n + 1);
}

abbrev goals : List (String × String)
goals = ("I need to search", "search") ∷ ("Help me fetch", "fetch") ∷ []

comprehension_probe-IsRate_example :
    (let probe = (comprehension_probe counting goals (search_tool ∷ []) 0).0 in
      IsRate probe.selection_rate × IsRate probe.false_fire_rate × IsRate probe.mean_confusion)
comprehension_probe-IsRate_example = comprehension_probe-IsRate counting goals (search_tool ∷ []) 0

-- A file's text that is read as one probe.
abbrev stored : Probe
stored = record {
  selection_rate = whole 1;
  false_fire_rate = whole 0;
  top_confusion = none;
  mean_confusion = whole 0;
  low_tools = [];
  matrix = none;
  tool_order = none;
  per_tool_total = none;
  rewrites = [];
}

abbrev empty_world : World ℕ
empty_world = record { models = 0; files = [] }

nothing_cached :
    cache_get
      (λ text. some stored)
      (probe_key counting (λ s. s) (λ p. "{}") (λ text. some stored) one_tool "1")
      empty_world.files
    ≡ none
unfolding cache_get get
nothing_cached = refl

run_or_cache-hit_example :
    (let run =
        run_or_cache counting (λ s. s) (λ p. "{}") (λ text. some stored) goals one_tool "1" in
      let first = run empty_world in
      let left = with_models first.1 100 in
      (first.0.0 ≡ (fresh_probe counting goals one_tool 0).0) × (run left ≡ ((stored, true), left)))
run_or_cache-hit_example =
    run_or_cache-hit counting (λ s. s) (λ p. "{}") (λ text. some stored) (λ p. stored) (λ p. refl)
      goals one_tool "1" empty_world 100 nothing_cached
