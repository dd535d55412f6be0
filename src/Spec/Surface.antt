-- ===== src/Spec/Surface.antt =====
-- src/mcp_quality/engines/spec_surface.py: `SpecSurfaceEngine`, over its checks. Argument synthesis
-- is a parameter, as are the texts that `json.dumps`, `str` and `repr` write.
pub mod Measured
pub mod Writes
use mcp_probe.Base.Sorting.{sort_texts}
use mcp_probe.Engines.Penalty.{penalty_score}
use mcp_probe.Scoring.Grade.{letter, grade_for_score}
use mcp_probe.Base.{
  String, List, Option, [], Bool, if◌then◌else◌, ◌++◌, ◌∷◌, none, false, some, ◌||◌, true, length,
  codes,
}
use mcp_probe.Base.Regex.{Wide}
use mcp_probe.Base.Json.{Json, nat, Fields, strs}
use mcp_probe.Models.{FamilyScore, ServerSurface, ToolDef, not_measured}
use mcp_probe.Contract.Errors.{Writers}
use mcp_probe.Spec.Tasks.{tasks_capability, grade_tasks_declaration, grade_task_lifecycle}
use mcp_probe.Base.Ratio.{whole}
use mcp_probe.Spec.Client.{Client}
use mcp_probe.Spec.Messages.{Graded, unmeasured, grade_sampling, grade_elicitation}
use mcp_probe.Spec.Drive.{safe_tools, drive, grade_resources, drive_tasks, cancel_first}

-- `run` from the findings of the four checks on
unfoldable pub spec_result : Graded → Graded → Graded → Graded → FamilyScore
spec_result sampling resources elicitation tasks =
    let findings =
      sampling.findings ++ (resources.findings ++ (elicitation.findings ++ tasks.findings)) in
    if sampling.measured || (resources.measured || (elicitation.measured || tasks.measured))
    then record {
      family = "spec";
      score = some (whole (penalty_score findings));
      grade = letter (grade_for_score (whole (penalty_score findings)));
      hard_gate_tripped = false;
      findings = findings;
      metrics =
          sampling.metrics
          ++ (resources.metrics
              ++ (tasks.metrics
                  ++ (
                    "exercised",
                    strs (
                        sort_texts (
                          (if sampling.measured then "sampling" ∷ [] else [])
                          ++ ((if resources.measured then "resources" ∷ [] else [])
                              ++ ((if elicitation.measured then "elicitation" ∷ [] else [])
                                  ++ (if tasks.measured then "tasks" ∷ [] else []))))),
                  )
                    ∷ []));
      measured = true;
    }
    else not_measured "spec"
        "no spec-surface capability exercised (sampling/resources/elicitation/tasks)"

module _ (wide : Wide) (writers : Writers) {S : Type 0} (client : Client S)
    (synthesize_args : Json → Json) (allow_writes : Bool) where
  -- `_grade_tasks` of a declared capability
  unfoldable pub grade_declared : List ToolDef → Option Fields → S → Graded × S
  grade_declared tools none s = (unmeasured, s)
  grade_declared tools (some caps) s =
      let (driven, later) = drive_tasks client synthesize_args (safe_tools allow_writes tools) s in
      let (cancelled, last) =
        cancel_first client synthesize_args (safe_tools allow_writes tools) later in
      (
        record {
          findings =
              grade_tasks_declaration caps
              ++ grade_task_lifecycle wide (λ (id : String). writers.quote (codes id))
                  (driven ++ cancelled);
          measured = true;
          metrics = ("tasks_lifecycles_driven", nat (length (driven ++ cancelled))) ∷ [];
        },
        last,
      )

  -- `SpecSurfaceEngine.run` of a live server. The log is read where each check reads it.
  unfoldable pub spec_run_live : ServerSurface → S → FamilyScore × S
  spec_run_live surface s =
      let driven = drive client synthesize_args allow_writes surface.tools s in
      let (resources, read) = grade_resources client surface driven in
      let (tasks, last) = grade_declared surface.tools (tasks_capability surface) read in
      (
        spec_result (grade_sampling wide writers (client.capture driven)) resources
            (grade_elicitation wide writers (client.capture read)) tasks,
        last,
      )

-- `SpecSurfaceEngine.run`, where `none` is static mode
unfoldable pub spec_run :
    {S : Type 0}
    → Wide
    → Writers
    → Option (Client S)
    → (Json → Json)
    → Bool
    → ServerSurface
    → S
    → FamilyScore × S
spec_run wide writers none synthesize_args allow_writes surface s =
    (not_measured "spec" "requires a live server (static mode)", s)
spec_run wide writers (some client) synthesize_args allow_writes surface s =
    spec_run_live wide writers client synthesize_args allow_writes surface s
