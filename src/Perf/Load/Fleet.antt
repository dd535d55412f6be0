-- ===== src/Perf/Load/Fleet.antt =====
-- src/mcp_quality/perf/load.py: what the merge of the workers' results keeps.
use mcp_probe.Base.{ℕ, List, ◌∷◌, ◌≡◌, any, ◌+◌, length, ◌||◌, [], arith}
use mcp_probe.Perf.Load.{LoadResult, no_load, merge, merge_all, aggregate_results}

-- The sum of a figure over the workers.
abbrev pub total_of : (LoadResult → ℕ) → List LoadResult → ℕ
total_of figure [] = 0
total_of figure (r ∷ rs) = figure r + total_of figure rs

-- The figures of a merge that starts from `agg`.
merge_all-sums :
    (agg : LoadResult) (rs : List LoadResult)
    → ((merge_all agg rs).errors ≡ agg.errors + total_of (λ (r : LoadResult). r.errors) rs)
      × ((merge_all agg rs).total ≡ agg.total + total_of (λ (r : LoadResult). r.total) rs)
      × ((merge_all agg rs).max_stable_concurrency
          ≡ agg.max_stable_concurrency + total_of (λ (r : LoadResult). r.max_stable_concurrency) rs)
      × ((merge_all agg rs).crashed ≡ (agg.crashed || any (λ (r : LoadResult). r.crashed) rs))
      × ((merge_all agg rs).workers ≡ agg.workers)
unfolding merge_all
merge_all-sums agg [] = ground arith
merge_all-sums agg (r ∷ rs) = ground (arith, merge_all-sums (merge agg r) rs)

-- The merged result sums the errors, the calls and the stable concurrency of the workers, has
-- crashed exactly when one of them has, and counts them.
pub aggregate_results-sums :
    (rs : List LoadResult)
    → ((aggregate_results rs).errors ≡ total_of (λ (r : LoadResult). r.errors) rs)
      × ((aggregate_results rs).total ≡ total_of (λ (r : LoadResult). r.total) rs)
      × ((aggregate_results rs).max_stable_concurrency
          ≡ total_of (λ (r : LoadResult). r.max_stable_concurrency) rs)
      × ((aggregate_results rs).crashed ≡ any (λ (r : LoadResult). r.crashed) rs)
      × ((aggregate_results rs).workers ≡ length rs)
unfolding aggregate_results
aggregate_results-sums [] = ground arith
aggregate_results-sums (r ∷ rs) =
    ground (arith, merge_all-sums (record no_load { workers = length (r ∷ rs) }) (r ∷ rs))
