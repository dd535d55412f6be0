-- ===== src/Pipeline/Engines/Degrade.antt =====
-- src/mcp_quality/pipeline.py: a missing, offline or crashing engine degrades to not-measured.
use mcp_probe.Base.{
  Bool, String, ℕ, ◌≡◌, true, List, some, arith, elem, ◌&&◌, [], ◌∷◌, none, false, inl, inr,
  Option-cases, Option, if◌then◌else◌, map, str_eq, ◌∙◌, str_eq_iff, refl,
}
use mcp_probe.Base.Dict
use mcp_probe.Base.Dict.{get-update}
use mcp_probe.Models.{not_measured}
use mcp_probe.Pipeline.Engines.{
  done, Engine, Registry, live_families, run_engine_once, run_engines, Bool, String,
}

module _ (registry : Registry) (static : Bool) (name : String) (seed : ℕ) where
  -- A run that is measured comes from a registered engine that did not lack a live server, and is
  -- the score which that engine returned.
  pub run_engine_once-measured :
      (run_engine_once registry static name seed).measured ≡ true
      → (engine : Engine) × (registry name ≡ some engine)
        × ((static && (elem name live_families && engine.requires_live)) ≡ false)
        × (engine.run seed ≡ done (run_engine_once registry static name seed))
  unfolding run_engine_once not_measured
  run_engine_once-measured h = elim (Option-cases (registry name)) [
    | inl missing ↦ absurd (ground arith)
    | inr (engine, e) ↦ (engine, e, ground arith, ground arith)
  ]

-- What a dictionary comprehension over the requested names finds.
last-map :
    {V : Type 0} (f : String → V) (k : String) (names : List String) (o : Option V)
    → Dict.last k (map (λ n. (n, f n)) names) o ≡ (if elem k names then some (f k) else o)
last-map f k [] o = refl
last-map f k (n ∷ names) o = ground (
  arith,
  last-map f k names (if str_eq n k then some (f n) else o),
  str_eq_iff n k,
  str_eq_iff k n,
)

-- Every requested family has the result of its one run, and no other family has an entry, whatever
-- the engines do.
get-run_engines :
    (registry : Registry) (static : Bool) (seed : ℕ) (families : List String) (name : String)
    → Dict.get name (run_engines registry static seed families)
      ≡ (if elem name families then some (run_engine_once registry static name seed) else none)
unfolding run_engines Dict.of_pairs Dict.get
get-run_engines registry static seed families name =
    get-update name [] (map (λ n. (n, run_engine_once registry static n seed)) families)
    ∙ last-map (λ n. run_engine_once registry static n seed) name families none
