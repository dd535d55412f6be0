-- ===== src/Spec/Tasks.antt =====
-- src/mcp_quality/engines/tasks_checks.py: grading of long-running tasks.
pub mod Clean
pub mod Handles
pub mod Matching
use mcp_probe.Base.Regex.{
  ends, Wide, Regex, seq, starts, matches_in, any_of, some_of, one, is_digit, text, optional,
}
use mcp_probe.Base.{
  String, Option, none, some, List, [], ◌∷◌, true, if◌then◌else◌, ◌&&◌, not, Bool, ◌<>◌, ◌++◌,
  flat_map, str_empty, codes, ◌==◌, ◌||◌,
}
use mcp_probe.Base.Json.{Json, Fields, find_field, obj, truthy?}
use mcp_probe.Models.{ServerSurface, Finding, Severity, low, medium}
use mcp_probe.Spec.Capture.{TaskObservation}

-- `^(?:\d+|task[-_]?\d+)$`
unfoldable pub weak_handle : Wide → Regex
weak_handle wide = seq (
    starts
    ∷ any_of (some_of (one (is_digit wide))) (
        seq (
          text true "task"
          ∷ optional (one (λ c. (c == 45) || (c == 95)))
          ∷ some_of (one (is_digit wide))
          ∷ [])
        ∷ [])
    ∷ ends
    ∷ [])

abbrev object_only : Option Json → Option Fields
object_only (some (obj fs)) = some fs
object_only _ = none

-- `tasks_capability`
unfoldable pub tasks_capability : ServerSurface → Option Fields
tasks_capability surface = object_only (find_field "tasks" surface.capabilities)

-- `_f` of tasks_checks.py
abbrev pub task_finding : String → Severity → String → String → Finding
task_finding code severity message remediation = record {
  family = "spec";
  code = code;
  severity = severity;
  message = message;
  tool = none;
  remediation = some remediation;
  owasp_id = none;
  source = "builtin";
  evidence = none;
}

-- `grade_tasks_declaration`
unfoldable pub grade_tasks_declaration : Fields → List Finding
grade_tasks_declaration tasks =
    if truthy? (find_field "requests" tasks) && not (truthy? (find_field "cancel" tasks))
    then task_finding "T2-cancel-undeclared" medium
        "server runs requests as long-running tasks but declares no cancellation support"
        "declare (and implement) tasks/cancel so agents can stop work they started"
      ∷ []
    else []

-- `obs.task_id and _WEAK_HANDLE.match(obs.task_id)`
unfoldable pub is_weak : Wide → String → Bool
is_weak wide task_id = not (str_empty task_id) && matches_in wide (weak_handle wide) (codes task_id)

-- `quoted` is `repr` of a text.
module _ (wide : Wide) (quoted : String → String) where
  abbrev unended : TaskObservation → List Finding
  unended obs =
      if obs.reached_terminal
      then []
      else task_finding "T1-no-terminal-state" medium
          ("task " <> quoted obs.task_id <> " never reached a terminal state within the poll bound")
          "ensure every task transitions to completed/failed/cancelled"
        ∷ []

  abbrev uncancelled : TaskObservation → List Finding
  uncancelled obs =
      if obs.cancel_requested && not obs.cancelled
      then task_finding "T2-cancel-ignored" medium
          ("task "
            <> quoted obs.task_id
            <> " was cancelled but did not move to the cancelled state")
          "honor tasks/cancel — stop work and report the cancelled status"
        ∷ []
      else []

  abbrev orphaned : TaskObservation → List Finding
  orphaned obs =
      if obs.still_active_after_end
      then task_finding "T3-orphaned-task" medium
          ("task " <> quoted obs.task_id <> " kept emitting after a terminal/cancel state")
          "stop all work and emissions once a task reaches a terminal state"
        ∷ []
      else []

  abbrev guessable : TaskObservation → List Finding
  guessable obs =
      if is_weak wide obs.task_id
      then task_finding "T4-weak-task-handle" low
          ("task handle " <> quoted obs.task_id <> " is sequential/guessable")
          "use an opaque, high-entropy task id so handles can't be enumerated"
        ∷ []
      else []

  -- One turn of the loop over the observations
  unfoldable pub grade_observation : TaskObservation → List Finding
  grade_observation obs = unended obs ++ (uncancelled obs ++ (orphaned obs ++ guessable obs))

  -- `grade_task_lifecycle`
  unfoldable pub grade_task_lifecycle : List TaskObservation → List Finding
  grade_task_lifecycle observations = flat_map grade_observation observations
