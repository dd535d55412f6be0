-- ===== src/Perf/Drive.antt =====
-- src/mcp_quality/perf/load.py: driving the curve. What each call meets (the server, the clock) is
-- a parameter.
pub mod Counts
pub mod Leak
use mcp_probe.Base.{
  ℕ, Bool, Option, List, if◌then◌else◌, ◌++◌, some, ◌+◌, ◌∷◌, ◌==◌, [], filter_map, true, ◌||◌, suc,
  none, false, zero, inl, inr, not, ◌&&◌, max,
}
use mcp_probe.Base.Ratio
use mcp_probe.Base.Ratio.{Ratio, ratio, whole}
use mcp_probe.Perf.Load.{ConcurrencyCurve, stages, LoadResult, no_load, aggregate_results}

-- What one call meets, and the time it took in milliseconds.
pub data Attempt : Type 0 where
  unreachable : Ratio → Attempt
  call_raised : Ratio → Attempt
  answered : Ratio → Bool → Attempt
  cancelled : Attempt

-- `_one_call`: the latency and whether it is an error; `none` is an exception that it lets through
unfoldable pub one_call : Attempt → Option (Ratio × Bool)
one_call (unreachable latency) = some (latency, true)
one_call (call_raised latency) = some (latency, true)
one_call (answered latency is_error) = some (latency, is_error)
one_call cancelled = none

-- The state of `run_load`: `result`, `stage_errors` and `max_stable`.
pub record LoadState : Type 0 where
  pub result : LoadResult
  pub stage_errors : ℕ
  pub max_stable : ℕ

abbrev one_error : Bool → ℕ
one_error b = if b then 1 else 0

-- The body of the inner loop.
unfoldable pub take_outcome : Option (Ratio × Bool) → LoadState → LoadState
take_outcome none s = record s {
  result = record s.result { total = s.result.total + 1; errors = s.result.errors + 1 };
  stage_errors = s.stage_errors + 1;
}
take_outcome (some (latency, is_error)) s = record s {
  result = record s.result {
    total = s.result.total + 1;
    latencies_ms = s.result.latencies_ms ++ latency ∷ [];
    errors = s.result.errors + one_error is_error;
  };
  stage_errors = s.stage_errors + one_error is_error;
}

unfoldable pub take_outcomes : List (Option (Ratio × Bool)) → LoadState → LoadState
unfolding take_outcome
take_outcomes [] s = s
take_outcomes (o ∷ os) s = take_outcomes os (take_outcome o s)

-- `stage_rate`
abbrev stage_rate : ℕ → ℕ → Ratio
stage_rate errors level = if level == 0 then whole 0 else ratio errors level

-- The end of a stage.
unfoldable pub close_stage : Ratio → ℕ → LoadState → LoadState
close_stage threshold level s =
    let rate = stage_rate s.stage_errors level in
    let below = Ratio.ltb rate threshold in
    record s {
      result = record s.result {
        connection_samples = s.result.connection_samples ++ level ∷ [];
        crashed = s.result.crashed || (not below && Ratio.leb (ratio 9 10) rate);
      };
      max_stable = if below then max s.max_stable level else s.max_stable;
    }

-- The server of a run: what the call at a position of a stage meets.
abbrev pub Server : Type 0
Server = ℕ → ℕ → Attempt

-- The outcomes of the calls of one stage, gathered.
unfoldable pub gather : (ℕ → Attempt) → ℕ → ℕ → List (Option (Ratio × Bool))
gather calls i zero = []
gather calls i (suc more) = one_call (calls i) ∷ gather calls (suc i) more

module _ (server : Server) (threshold : Ratio) where
  unfoldable pub run_stage : ℕ → ℕ → LoadState → LoadState
  run_stage i level s =
      close_stage threshold level
        (take_outcomes (gather (server i) 0 level) (record s { stage_errors = 0 }))

  unfoldable pub run_stages : ℕ → List ℕ → LoadState → LoadState
  unfolding run_stage
  run_stages i [] s = s
  run_stages i (level ∷ levels) s = run_stages (suc i) levels (run_stage i level s)

  abbrev pub idle : LoadState
  idle = record { result = no_load; stage_errors = 0; max_stable = 0 }

  -- `run_load`
  unfoldable pub run_load : ConcurrencyCurve → LoadResult
  run_load curve =
      let last_state = run_stages 0 (stages curve) idle in
      record last_state.result { max_stable_concurrency = last_state.max_stable }

-- The workers' results, each against its own view of the server.
unfoldable pub run_workers : (ℕ → Server) → Ratio → ConcurrencyCurve → ℕ → ℕ → List LoadResult
run_workers servers threshold curve i zero = []
run_workers servers threshold curve i (suc more) =
    run_load (servers i) threshold curve ∷ run_workers servers threshold curve (suc i) more

-- `run_distributed_load`
unfoldable pub run_distributed_load :
    (ℕ → Server) → Ratio → ConcurrencyCurve → ℕ → LoadResult × List LoadResult
run_distributed_load servers threshold curve workers =
    let per_worker = run_workers servers threshold curve 0 workers in
    (aggregate_results per_worker, per_worker)

-- `run_coordinated_load`, over what the launcher gives for each worker
unfoldable pub run_coordinated_load : List (Option LoadResult) → LoadResult × List LoadResult
run_coordinated_load outcomes =
    let per_worker = filter_map (λ o. o) outcomes in (aggregate_results per_worker, per_worker)
