-- ===== src/Engines/Performance.antt =====
-- src/mcp_quality/engines/performance.py: which tool is loaded and how, and the score of the result.
-- The server, and what a launched worker sends back, are parameters.
pub mod LeakFree
use mcp_probe.Base.{
  String, Option, ℕ, List, Bool, if◌then◌else◌, false, ◌∷◌, some, filter, [], none, ◌<>◌, ◌++◌, ltb,
  ◌-◌, length, ◌&&◌, true, ◌*◌, not, suc, show_nat, max, map, leb, zero, inl, inr,
}
use mcp_probe.Base.Ratio
use mcp_probe.Base.Ratio.{Ratio, ratio, whole}
use mcp_probe.Base.Dict.{Dict}
use mcp_probe.Base.Json.{ratio_json, Json, str, bool, nat, float, arr, obj, of_items, of_fields}
use mcp_probe.Models.{
  Severity, medium, high, Finding, FamilyScore, ToolDef, ServerSurface, is_read_only, not_measured,
}
use mcp_probe.Scoring.Grade.{letter, grade_for_score}
use mcp_probe.Perf.Load.{
  engine_curve, percentile, Degradation, crash, clean_fail, graceful, classify_degradation,
  detect_leak, ConcurrencyCurve, LoadResult, error_rate,
}
use mcp_probe.Perf.Drive.{Server, run_load, run_distributed_load, run_coordinated_load}
use mcp_probe.Engines.WriteVerb.{is_write}

-- `_pick_read_only_tool`
unfoldable pub pick_read_only_tool : ServerSurface → Option ToolDef
pick_read_only_tool surface = elim (filter is_read_only surface.tools) [
  | t ∷ ts ↦ some t
  | [] ↦ elim (filter (λ t. not (is_write t)) surface.tools) [ t ∷ ts ↦ some t | [] ↦ none ]
]

-- The options that the engine reads, and whether it was given a client, a factory or a launcher.
pub record PerfConfig : Type 0 where
  pub concurrency : ℕ
  pub distributed : ℕ
  pub distributed_workers : ℕ
  pub reachable : Bool

-- What the load gave: `result`, `per_worker`, `effective_concurrency` and `worker_mode`.
pub record LoadRun : Type 0 where
  pub result : LoadResult
  pub per_worker : Option (List LoadResult)
  pub effective_concurrency : ℕ
  pub worker_mode : String

-- The default `error_threshold` of `run_load`.
abbrev pub error_threshold : Ratio
error_threshold = ratio 1 2

-- What `launch(i, job)` gives for each worker from the i-th on.
abbrev pub launch_all : (ℕ → Option LoadResult) → ℕ → ℕ → List (Option LoadResult)
launch_all launch i zero = []
launch_all launch i (suc more) = launch i ∷ launch_all launch (suc i) more

abbrev degradation_name : Degradation → String
degradation_name crash = "crash"
degradation_name clean_fail = "clean-fail"
degradation_name graceful = "graceful"

-- `Finding(family="performance", ...)`
abbrev performance_finding : String → Severity → String → String → Option String → Finding
performance_finding code severity tool message remediation = record {
  family = "performance";
  code = code;
  severity = severity;
  message = message;
  tool = some tool;
  remediation = remediation;
  owasp_id = none;
  source = "builtin";
  evidence = none;
}

unfoldable pub degradation_findings : String → Degradation → LoadResult → List Finding
degradation_findings tool crash result =
    performance_finding "P4-crash" high tool
      ("server crashed / dropped connections under load (stable only to ~"
        <> (show_nat result.max_stable_concurrency <> " concurrent)"))
      (some "add backpressure / connection limits; fail cleanly instead of crashing")
    ∷ []
degradation_findings tool clean_fail result =
    performance_finding "P4-clean-fail" medium tool
      ("high error rate ("
        <> (show_nat (Ratio.round_units 100 (error_rate result))
            <> "%) under load, but errors were clean"))
      none
    ∷ []
degradation_findings tool graceful result = []

unfoldable pub leak_findings : String → Bool → List Finding
leak_findings tool leak =
    if leak
    then performance_finding "P5-leak" high tool
        "connection/FD baseline rose under sustained load — likely a leak"
        (some "ensure connections/sessions are closed; check for unbounded pools")
      ∷ []
    else []

-- `PerformanceEngine._findings`
unfoldable pub performance_findings : String → Degradation → Bool → LoadResult → List Finding
performance_findings tool degradation leak result =
    degradation_findings tool degradation result ++ leak_findings tool leak

unfoldable pub degradation_cost : Degradation → ℕ
degradation_cost crash = 45
degradation_cost clean_fail = 20
degradation_cost graceful = 0

-- `min(25.0, (p95 - budget) / budget * 25.0)` where `p95` is above the budget of 500
unfoldable pub latency_cost : Ratio → Ratio
latency_cost p95 =
    if Ratio.ltb (whole 500) p95
    then Ratio.min (whole 25)
        (Ratio.mul (Ratio.div (Ratio.monus p95 (whole 500)) (whole 500)) (whole 25))
    else whole 0

-- `15 * (1 - max_stable / max(1, concurrency))` where the stable level is below the requested one
unfoldable pub ceiling_cost : ℕ → ℕ → Ratio
ceiling_cost max_stable concurrency =
    if ltb max_stable concurrency
    then ratio (15 * (concurrency - max_stable)) (max 1 concurrency)
    else whole 0

-- `PerformanceEngine._score`; each subtraction stops at 0, as the clamp at the end does
unfoldable pub performance_score : Ratio → Degradation → Bool → ℕ → ℕ → Ratio
performance_score p95 degradation leak max_stable concurrency =
    let flat = 100 - degradation_cost degradation - (if leak then 25 else 0) in
    Ratio.monus (Ratio.monus (whole flat) (latency_cost p95)) (ceiling_cost max_stable concurrency)

abbrev worker_json : LoadResult → Json
worker_json w = obj (
    of_fields (
      ("max_stable", nat w.max_stable_concurrency)
      ∷ ("error_rate", ratio_json (Ratio.round 1000 (error_rate w)))
      ∷ ("p95_ms", ratio_json (Ratio.round 10 (percentile w.latencies_ms 95)))
      ∷ []))

-- `len(per_worker) if per_worker else 1`
abbrev worker_count : Option (List LoadResult) → ℕ
worker_count none = 1
worker_count (some []) = 1
worker_count (some (w ∷ ws)) = length (w ∷ ws)

abbrev worker_metrics : Option (List LoadResult) → Dict Json
worker_metrics none = []
worker_metrics (some ws) = ("per_worker", arr (of_items (map worker_json ws))) ∷ []

-- `detect_leak(...) and result.error_rate > 0.1`
unfoldable pub leaks : LoadResult → Bool
leaks result = detect_leak result.connection_samples && Ratio.ltb (ratio 1 10) (error_rate result)

-- The family score of a load run.
unfoldable pub grade_run : String → LoadRun → FamilyScore
grade_run tool run =
    let result = run.result in
    let degradation = classify_degradation (error_rate result) result.crashed in
    let p95 = percentile result.latencies_ms 95 in
    let leak = leaks result in
    let score =
      performance_score p95 degradation leak result.max_stable_concurrency
        run.effective_concurrency in
    record {
      family = "performance";
      score = some score;
      grade = letter (grade_for_score score);
      hard_gate_tripped = false;
      findings = performance_findings tool degradation leak result;
      metrics =
          ("tool", str tool)
          ∷ ("p50_ms", ratio_json (Ratio.round 10 (percentile result.latencies_ms 50)))
          ∷ ("p95_ms", ratio_json (Ratio.round 10 p95))
          ∷ ("p99_ms", ratio_json (Ratio.round 10 (percentile result.latencies_ms 99)))
          ∷ ("max_concurrency", nat result.max_stable_concurrency)
          ∷ ("requested_concurrency", nat run.effective_concurrency)
          ∷ ("error_rate", ratio_json (Ratio.round 1000 (error_rate result)))
          ∷ ("degradation", str (degradation_name degradation))
          ∷ ("leak", bool leak)
          ∷ ("calls", nat result.total)
          ∷ ("workers", nat (worker_count run.per_worker))
          ∷ ("worker_mode", str run.worker_mode)
          ∷ worker_metrics run.per_worker;
      measured = true;
    }

-- The server as each in-process worker meets it, and the launcher of the worker processes.
module _ (servers : ℕ → Server) (launch : ℕ → Option LoadResult) where
  unfoldable pub single_run : ℕ → LoadRun
  single_run concurrency = record {
    result = run_load (servers 0) error_threshold (engine_curve concurrency);
    per_worker = none;
    effective_concurrency = concurrency;
    worker_mode = "single";
  }

  unfoldable pub process_run : ℕ → LoadResult × List LoadResult → LoadRun
  unfolding single_run
  process_run concurrency (result, []) = single_run concurrency
  process_run concurrency (result, w ∷ ws) = record {
    result = result;
    per_worker = some (w ∷ ws);
    effective_concurrency = concurrency * length (w ∷ ws);
    worker_mode = "process";
  }

  -- The load, in the order of precedence: worker processes, a fleet in the process, one run.
  unfoldable pub load_run : PerfConfig → LoadRun
  load_run config =
      if ltb 1 config.distributed_workers
      then process_run config.concurrency
          (run_coordinated_load (launch_all launch 0 config.distributed_workers))
      else if ltb 1 config.distributed
      then (let fleet =
            run_distributed_load servers error_threshold (engine_curve config.concurrency)
              config.distributed in
          record {
            result = fleet.0;
            per_worker = some fleet.1;
            effective_concurrency = config.concurrency * config.distributed;
            worker_mode = "async";
          })
      else single_run config.concurrency

  -- `PerformanceEngine.run`
  unfoldable pub performance_run : PerfConfig → ServerSurface → FamilyScore
  performance_run config surface =
      if not config.reachable && leb config.distributed_workers 1
      then not_measured "performance" "requires a live server"
      else elim (pick_read_only_tool surface) [
        | none ↦ not_measured "performance" "no read-only tool to load-test safely"
        | some t ↦ grade_run t.name (load_run config)
      ]
