-- ===== src/Perf/Load.antt =====
-- src/mcp_quality/perf/load.py: the figures of a load run, its curve, and the merge of results.
pub mod Percentile
pub mod Fleet
use mcp_probe.Base.{
  ℕ, List, ◌*◌, ◌-◌, Bool, [], if◌then◌else◌, ◌++◌, option_or, ◌/◌, length, ◌∷◌, false, suc,
  replicate, ◌==◌, ◌+◌, none, some, true, zero, inl, inr, get_elem?, min, ltb, leb, max, ◌||◌, ◌&&◌,
}
use mcp_probe.Base.Ratio
use mcp_probe.Base.Ratio.{Ratio, ratio, whole}
use mcp_probe.Base.Sorting.{sort}
use mcp_probe.Base.Json.{Json, Fields}

abbrev pub sample_at : List Ratio → ℕ → Ratio
sample_at xs i = option_or (get_elem? xs i) (whole 0)

-- The position of the lower neighbour, and the rest of the rank in hundredths.
abbrev pub low_rank : ℕ → ℕ → ℕ
low_rank p n = p * (n - 1) / 100

abbrev pub rest_rank : ℕ → ℕ → ℕ
rest_rank p n = p * (n - 1) - low_rank p n * 100

-- `a * (1 - frac) + b * frac`
unfoldable pub between : Ratio → Ratio → ℕ → Ratio
between a b rest = Ratio.add (Ratio.mul a (ratio (100 - rest) 100)) (Ratio.mul b (ratio rest 100))

unfoldable pub interpolate : List Ratio → ℕ → Ratio
unfolding between
interpolate ordered p =
    let n = length ordered in
    let lo = low_rank p n in
    between (sample_at ordered lo) (sample_at ordered (min (lo + 1) (n - 1))) (rest_rank p n)

-- `percentile`; every call of the program passes a whole number for `p`
unfoldable pub percentile : List Ratio → ℕ → Ratio
percentile [] p = whole 0
percentile (x ∷ []) p = x
percentile (x ∷ y ∷ xs) p = interpolate (sort Ratio.leb (x ∷ y ∷ xs)) p

-- The answers of `classify_degradation`.
pub data Degradation : Type 0 where
  crash clean_fail graceful : Degradation

-- `classify_degradation`; it does not read the latency growth
unfoldable pub classify_degradation : Ratio → Bool → Degradation
classify_degradation error_rate crashed =
    if crashed then crash else if Ratio.leb (ratio 20 100) error_rate then clean_fail else graceful

-- `sum(1 for a, b in zip(xs, xs[1:]) if b > a)`
abbrev pub rises : ℕ → List ℕ → ℕ
rises a [] = 0
rises a (b ∷ xs) = (if ltb a b then 1 else 0) + rises b xs

abbrev pub last_of : ℕ → List ℕ → ℕ
last_of a [] = a
last_of a (b ∷ xs) = last_of b xs

-- `detect_leak`; `rising >= (n - 1) * 0.6` in fifths
unfoldable pub detect_leak : List ℕ → Bool
detect_leak [] = false
detect_leak (first ∷ rest) =
    leb 3 (length (first ∷ rest))
    && (ltb first (last_of first rest) && leb (3 * length rest) (5 * rises first rest))

pub record ConcurrencyCurve : Type 0 where
  pub ramp_to : ℕ
  pub ramp_steps : ℕ
  pub hold_iterations : ℕ
  pub spike_to : ℕ

-- The curve of the performance engine: four steps up, three stages of hold, no spike.
abbrev pub engine_curve : ℕ → ConcurrencyCurve
engine_curve concurrency = record {
  ramp_to = concurrency;
  ramp_steps = 4;
  hold_iterations = 3;
  spike_to = 0;
}

-- `max(1, round(ramp_to * step / ramp_steps))` for `step` from the first one on
unfoldable pub ramp : ℕ → ℕ → ℕ → ℕ → List ℕ
ramp ramp_to steps step zero = []
ramp ramp_to steps step (suc more) =
    max 1 (Ratio.round_units 1 (ratio (ramp_to * step) steps)) ∷ ramp ramp_to steps (suc step) more

-- `ConcurrencyCurve.stages`
unfoldable pub stages : ConcurrencyCurve → List ℕ
unfolding ramp
stages c =
    ramp c.ramp_to c.ramp_steps 1 c.ramp_steps
    ++ (replicate c.hold_iterations c.ramp_to ++ (if c.spike_to == 0 then [] else c.spike_to ∷ []))

pub record LoadResult : Type 0 where
  pub latencies_ms : List Ratio
  pub errors : ℕ
  pub total : ℕ
  pub crashed : Bool
  pub connection_samples : List ℕ
  pub max_stable_concurrency : ℕ
  pub workers : ℕ

-- `LoadResult()`
abbrev pub no_load : LoadResult
no_load = record {
  latencies_ms = [];
  errors = 0;
  total = 0;
  crashed = false;
  connection_samples = [];
  max_stable_concurrency = 0;
  workers = 1;
}

-- `LoadResult.error_rate`
unfoldable pub error_rate : LoadResult → Ratio
error_rate r = if r.total == 0 then whole 0 else ratio r.errors r.total

-- One turn of the loop of `aggregate_results`.
unfoldable pub merge : LoadResult → LoadResult → LoadResult
merge agg r = record agg {
  latencies_ms = agg.latencies_ms ++ r.latencies_ms;
  errors = agg.errors + r.errors;
  total = agg.total + r.total;
  crashed = agg.crashed || r.crashed;
  max_stable_concurrency = agg.max_stable_concurrency + r.max_stable_concurrency;
}

unfoldable pub merge_all : LoadResult → List LoadResult → LoadResult
unfolding merge
merge_all agg [] = agg
merge_all agg (r ∷ rs) = merge_all (merge agg r) rs

-- `zip` of two sample lists by addition: as long as the shorter one
abbrev pub add_samples : List ℕ → List ℕ → List ℕ
add_samples [] ys = []
add_samples (x ∷ xs) [] = []
add_samples (x ∷ xs) (y ∷ ys) = (x + y) ∷ add_samples xs ys

-- The samples summed per stage, over the stages that every worker has.
unfoldable pub sum_samples : LoadResult → List LoadResult → List ℕ
sum_samples r [] = r.connection_samples
sum_samples r (s ∷ rs) = add_samples r.connection_samples (sum_samples s rs)

-- `aggregate_results`
unfoldable pub aggregate_results : List LoadResult → LoadResult
aggregate_results [] = record no_load { workers = 0 }
aggregate_results (r ∷ rs) =
    record (merge_all (record no_load { workers = length (r ∷ rs) }) (r ∷ rs)) {
      connection_samples = sum_samples r rs;
    }
