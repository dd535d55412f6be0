-- ===== src/Engines/Performance/LeakFree.antt =====
-- src/mcp_quality/engines/performance.py: the leak finding is out of reach of the in-process runs.
use mcp_probe.Base.{
  ℕ, Bool, String, Option, str_eq, any, ◌≡◌, ◌≤◌, arith, false, ◌∙◌, Option-cases, inl, inr,
}
use mcp_probe.Models.{Finding, ServerSurface, not_measured}
use mcp_probe.Perf.Load.{LoadResult, detect_leak, Degradation, crash, clean_fail, graceful}
use mcp_probe.Perf.Drive.{Server}
use mcp_probe.Perf.Drive.Leak.{run_load-no_leak, run_distributed_load-no_leak}
use mcp_probe.Engines.Performance.{
  PerfConfig, LoadRun, error_threshold, degradation_findings, leak_findings, performance_findings,
  leaks, grade_run, single_run, load_run, performance_run, pick_read_only_tool,
}

-- A finding with the code of a leak.
abbrev pub is_leak : Finding → Bool
is_leak f = str_eq f.code "P5-leak"

any-performance_findings :
    (tool : String) (degradation : Degradation) (leak : Bool) (result : LoadResult)
    → any is_leak (performance_findings tool degradation leak result) ≡ leak
unfolding performance_findings degradation_findings leak_findings
any-performance_findings tool crash leak result = ground arith
any-performance_findings tool clean_fail leak result = ground arith
any-performance_findings tool graceful leak result = ground arith

any-grade_run :
    (tool : String) (run : LoadRun)
    → detect_leak run.result.connection_samples ≡ false
    → any is_leak (grade_run tool run).findings ≡ false
unfolding grade_run leaks
any-grade_run tool run h =
    any-performance_findings tool _ (leaks run.result) run.result
    ∙ (unfold leaks in ground (arith, h))

module _ (servers : ℕ → Server) (launch : ℕ → Option LoadResult) where
  load_run-no_leak :
      (config : PerfConfig)
      → config.distributed_workers ≤ 1
      → detect_leak (load_run servers launch config).result.connection_samples ≡ false
  unfolding load_run single_run
  load_run-no_leak config h = ground (
    arith,
    run_load-no_leak (servers 0) error_threshold config.concurrency,
    run_distributed_load-no_leak servers error_threshold config.concurrency config.distributed,
  )

  -- Without worker processes, the performance engine never reports a leak, whatever the server does
  -- and whatever the concurrency.
  pub performance_run-no_leak :
      (config : PerfConfig) (surface : ServerSurface)
      → config.distributed_workers ≤ 1
      → any is_leak (performance_run servers launch config surface).findings ≡ false
  unfolding performance_run not_measured
  performance_run-no_leak config surface h = elim (Option-cases (pick_read_only_tool surface)) [
    | inl missing ↦ ground arith
    | inr (t, e) ↦
        ground
          (arith, any-grade_run t.name (load_run servers launch config) (load_run-no_leak config h))
  ]
