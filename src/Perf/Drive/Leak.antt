-- ===== src/Perf/Drive/Leak.antt =====
-- src/mcp_quality/perf/load.py: what the leak detector sees of a load run.
use mcp_probe.Base.{ℕ, ◌*◌, ◌≤◌, ◌≡◌, arith, false, ◌∷◌, [], max, List, refl, ◌+◌, suc, zero}
use mcp_probe.Base.Ratio
use mcp_probe.Base.Ratio.{Ratio, ratio}
use mcp_probe.Perf.Load.{
  engine_curve, LoadResult, sum_samples, aggregate_results, add_samples, stages, detect_leak,
  add_samples,
}
use mcp_probe.Perf.Drive.{run_workers, run_distributed_load, Server, run_load}
use mcp_probe.Perf.Drive.Counts.{run_load-counts}

-- The last step of the ramp is the whole level.
round-whole : (n : ℕ) → Ratio.round_units 1 (ratio (n * 4) 4) ≡ n
unfolding Ratio.round_units
round-whole n = ground arith

-- Seven samples that rise at most three times are no leak.
detect_leak-plateau : (a b c d e : ℕ) → e ≤ d → detect_leak (a ∷ b ∷ c ∷ d ∷ e ∷ e ∷ e ∷ []) ≡ false
unfolding detect_leak
detect_leak-plateau a b c d e h = ground arith

detect_leak-stages : (n : ℕ) → detect_leak (stages (engine_curve n)) ≡ false
unfolding stages
detect_leak-stages n =
    detect_leak-plateau _ _ _ (max 1 (Ratio.round_units 1 (ratio (n * 4) 4))) n
      (omega (arith, round-whole n))

-- No single load run over the performance engine's curve is ever seen as a leak, whatever its
-- concurrency and whatever the server does: the samples are the scheduled levels.
pub run_load-no_leak :
    (server : Server) (threshold : Ratio) (concurrency : ℕ)
    → detect_leak (run_load server threshold (engine_curve concurrency)).connection_samples ≡ false
run_load-no_leak server threshold concurrency =
    rw (run_load-counts server threshold (engine_curve concurrency)).2
      (detect_leak-stages concurrency)

-- Samples of the shape that the curve gives.
abbrev Plateau : List ℕ → Type 0
Plateau xs = (a b c d e : ℕ) × (e ≤ d) × (xs ≡ a ∷ b ∷ c ∷ d ∷ e ∷ e ∷ e ∷ [])

Plateau-add_samples : (xs ys : List ℕ) → Plateau xs → Plateau ys → Plateau (add_samples xs ys)
Plateau-add_samples xs ys (a, b, c, d, e, h, p) (a', b', c', d', e', h', p') =
    (a + a', b + b', c + c', d + d', e + e', omega arith, rw (p, p') refl)

Plateau-stages : (n : ℕ) → Plateau (stages (engine_curve n))
unfolding stages
Plateau-stages n =
    (_, _, _, max 1 (Ratio.round_units 1 (ratio (n * 4) 4)), n, omega (arith, round-whole n), refl)

detect_leak_of_Plateau : (xs : List ℕ) → Plateau xs → detect_leak xs ≡ false
detect_leak_of_Plateau xs (a, b, c, d, e, h, p) = rw p (detect_leak-plateau a b c d e h)

module _ (servers : ℕ → Server) (threshold : Ratio) (n : ℕ) where
  Plateau-run_load :
      (i : ℕ) → Plateau (run_load (servers i) threshold (engine_curve n)).connection_samples
  Plateau-run_load i =
      rw (run_load-counts (servers i) threshold (engine_curve n)).2 (Plateau-stages n)

  Plateau-run_workers :
      (i more : ℕ) (r : LoadResult)
      → Plateau r.connection_samples
      → Plateau (sum_samples r (run_workers servers threshold (engine_curve n) i more))
  unfolding sum_samples run_workers
  Plateau-run_workers i zero r h = h
  Plateau-run_workers i (suc more) r h = Plateau-add_samples r.connection_samples _ h (
      Plateau-run_workers (suc i) more (run_load (servers i) threshold (engine_curve n))
        (Plateau-run_load i))

  -- The merged result of a fleet of load runs over the performance engine's curve is never seen as a
  -- leak either, for any number of workers.
  pub run_distributed_load-no_leak :
      (workers : ℕ)
      → detect_leak
          (run_distributed_load servers threshold (engine_curve n) workers).0.connection_samples
        ≡ false
  unfolding run_distributed_load run_workers aggregate_results
  run_distributed_load-no_leak zero = unfold detect_leak in refl
  run_distributed_load-no_leak (suc more) = detect_leak_of_Plateau _ (
      Plateau-run_workers 1 more (run_load (servers 0) threshold (engine_curve n))
        (Plateau-run_load 0))
