-- ===== src/Spec/Surface/Measured.antt =====
-- src/mcp_quality/engines/spec_surface.py: when the family is measured, and what it may decide.
use mcp_probe.Base.{Bool, ◌≡◌, Option, ◌||◌, not, arith, is_some, is_empty, some, false, none, refl}
use mcp_probe.Base.Json.{Json, Fields}
use mcp_probe.Base.Regex.{Wide}
use mcp_probe.Models.{ServerSurface, not_measured}
use mcp_probe.Contract.Errors.{Writers}
use mcp_probe.Spec.Tasks.{tasks_capability}
use mcp_probe.Spec.Client.{Client}
use mcp_probe.Spec.Messages.{Graded, grade_sampling, grade_elicitation}
use mcp_probe.Spec.Drive.{uris_of, drive, grade_resources}
use mcp_probe.Spec.Surface.{spec_result, grade_declared, spec_run_live}

module _ (wide : Wide) (writers : Writers) {S : Type 0} (client : Client S)
    (synthesize_args : Json → Json) (allow_writes : Bool) where
  -- The server after the read-only tools were called, and after the resources were read.
  abbrev pub after_drive : ServerSurface → S → S
  after_drive surface s = drive client synthesize_args allow_writes surface.tools s

  abbrev pub after_read : ServerSurface → S → S
  after_read surface s = (grade_resources client surface (after_drive surface s)).1

  -- Something of the family was exercised: the log says so, a resource is advertised, or tasks are
  -- declared.
  abbrev pub is_exercised : ServerSurface → S → Bool
  is_exercised surface s =
      (client.capture (after_drive surface s)).used_sampling
      || (not (is_empty (uris_of surface))
          || ((client.capture (after_read surface s)).used_elicitation
              || is_some (tasks_capability surface)))

  sampling-measured :
      (surface : ServerSurface) (s : S)
      → (grade_sampling wide writers (client.capture s)).measured ≡ (client.capture s).used_sampling
  unfolding grade_sampling
  sampling-measured surface s = ground arith

  elicitation-measured :
      (surface : ServerSurface) (s : S)
      → (grade_elicitation wide writers (client.capture s)).measured
        ≡ (client.capture s).used_elicitation
  unfolding grade_elicitation
  elicitation-measured surface s = ground arith

  resources-measured :
      (surface : ServerSurface) (s : S)
      → (grade_resources client surface s).0.measured ≡ not (is_empty (uris_of surface))
  unfolding grade_resources
  resources-measured surface s = ground arith

  tasks-measured :
      (surface : ServerSurface) (caps : Option Fields) (s : S)
      → (grade_declared wide writers client synthesize_args allow_writes surface.tools caps
          s).0.measured
        ≡ is_some caps
  unfolding grade_declared
  tasks-measured surface none s = refl
  tasks-measured surface (some caps) s = refl

  result-measured :
      (a b c d : Graded)
      → ((spec_result a b c d).measured
          ≡ (a.measured || (b.measured || (c.measured || d.measured))))
        × (is_some (spec_result a b c d).score ≡ (spec_result a b c d).measured)
        × ((spec_result a b c d).hard_gate_tripped ≡ false)
  unfolding spec_result not_measured
  result-measured a b c d = (ground arith, ground arith, ground arith)

  -- The family is measured, and has a score, exactly where sampling, a resource, an elicitation or
  -- declared tasks were there; it never trips the hard gate.
  pub spec_run_live-measured :
      (surface : ServerSurface) (s : S)
      → ((spec_run_live wide writers client synthesize_args allow_writes surface s).0.measured
          ≡ is_exercised surface s)
        × (is_some
              (spec_run_live wide writers client synthesize_args allow_writes surface s).0.score
            ≡ is_exercised surface s)
        × ((spec_run_live wide writers client synthesize_args allow_writes surface
              s).0.hard_gate_tripped
            ≡ false)
  unfolding spec_run_live
  spec_run_live-measured surface s =
      let read = after_read surface s in
      let a = sampling-measured surface (after_drive surface s) in
      let b = resources-measured surface (after_drive surface s) in
      let c = elicitation-measured surface read in
      let d = tasks-measured surface (tasks_capability surface) read in
      let r =
        result-measured (grade_sampling wide writers (client.capture (after_drive surface s)))
          (grade_resources client surface (after_drive surface s)).0
          (grade_elicitation wide writers (client.capture read))
          (grade_declared wide writers client synthesize_args allow_writes surface.tools
            (tasks_capability surface) read).0 in
      (cc, cc, r.2)
