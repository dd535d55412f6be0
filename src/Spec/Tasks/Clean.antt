-- ===== src/Spec/Tasks/Clean.antt =====
-- src/mcp_quality/engines/tasks_checks.py: which tasks are graded clean.
use mcp_probe.Base.{
  codes, String, ◌≡◌, is_empty, true, false, ◌↔◌, arith, List, All, ◌∷◌, is_empty-append, [], refl,
}
use mcp_probe.Spec.Tasks.Handles.{IsSequential, is_weak-IsSequential_iff}
use mcp_probe.Base.Regex.{Wide}
use mcp_probe.Spec.Capture.{TaskObservation}
use mcp_probe.Spec.Tasks.{grade_observation, grade_task_lifecycle}

module _ (wide : Wide) (quoted : String → String) where
  -- A task that ended, that was cancelled where this was asked, that is quiet after its end, and
  -- whose handle is no counter.
  abbrev pub IsClean : TaskObservation → Type 0
  IsClean obs =
      (obs.reached_terminal ≡ true)
      × (obs.cancel_requested ≡ true → obs.cancelled ≡ true)
      × (obs.still_active_after_end ≡ false)
      × (¬ IsSequential wide (codes obs.task_id))

  grade_observation-IsClean :
      (obs : TaskObservation) → is_empty (grade_observation wide quoted obs) ≡ true ↔ IsClean obs
  unfolding grade_observation
  grade_observation-IsClean obs = ground (arith, is_weak-IsSequential_iff wide obs.task_id)

  -- The lifecycle of tasks has no finding exactly where each task ended, was cancelled if this was
  -- asked, is quiet after its end, and has a handle that is not digits alone or `task` (in any case,
  -- then a `-`, a `_` or nothing) and digits, with at most a newline at the end.
  pub grade_task_lifecycle-IsClean_iff :
      (observations : List TaskObservation)
      → is_empty (grade_task_lifecycle wide quoted observations) ≡ true ↔ All IsClean observations
  unfolding grade_task_lifecycle
  grade_task_lifecycle-IsClean_iff [] = (λ h. tt, λ h. refl)
  grade_task_lifecycle-IsClean_iff (obs ∷ rest) =
      let one = grade_observation-IsClean obs in
      let all = grade_task_lifecycle-IsClean_iff rest in
      ground (arith, is_empty-append (grade_observation wide quoted obs))
