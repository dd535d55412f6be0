-- ===== src/Pipeline/Gates.antt =====
-- src/mcp_quality/pipeline.py: `_decide_exit`, and the exit codes of exit_codes.py.
pub mod Spec
use mcp_probe.Base.{
  ℕ, String, Option, Bool, not, false, if◌then◌else◌, str_empty, is_empty, some, any, text_or_empty,
  ◌||◌, ◌&&◌, str_eq, none, ltb,
}
use mcp_probe.Base.Dict
use mcp_probe.Base.Dict.{Dict, values}
use mcp_probe.Models.{FamilyScore, not_measured_grade}
use mcp_probe.Scoring.Grade.{order_or_zero}
use mcp_probe.Snapshot.Store.{Regression, is_negative}

-- `ExitCode`
pub data ExitCode : Type 0 where
  ok gate_failure probe_error : ExitCode

-- The integer of an exit code.
unfoldable pub exit_value : ExitCode → ℕ
exit_value ok = 0
exit_value gate_failure = 1
exit_value probe_error = 2

-- The gating options of `ProbeConfig`.
pub record GateConfig : Type 0 where
  pub fail_under : Option String
  pub fail_under_family : Dict String
  pub no_regressions : Bool

-- Gate 1: the overall grade is below the floor.
unfoldable pub below_floor : GateConfig → String → Bool
below_floor config overall_grade =
    not (str_empty (text_or_empty config.fail_under))
    && not (str_eq overall_grade not_measured_grade)
    && ltb (order_or_zero overall_grade) (order_or_zero (text_or_empty config.fail_under))

-- Gate 2: one family is below its floor.
unfoldable pub family_below : Dict FamilyScore → String × String → Bool
family_below families (family, floor) = elim (Dict.get family families) [
  | none ↦ false
  | some fam ↦ fam.measured && ltb (order_or_zero fam.grade) (order_or_zero floor)
]

-- Gate 3: the regression block shows a break, a drop or a drift.
unfoldable pub regressed : Regression → Bool
regressed reg =
    not (is_empty reg.broken_contracts)
    || any is_negative (values reg.score_delta)
    || (not (is_empty reg.capability_changes) || not (is_empty reg.removed_tools))

unfoldable pub regression_blocks : GateConfig → Option Regression → Bool
unfolding regressed
regression_blocks config none = false
regression_blocks config (some reg) = config.no_regressions && regressed reg

-- `_decide_exit`
unfoldable pub decide_exit : GateConfig → String → Dict FamilyScore → Option Regression → ExitCode
decide_exit config overall_grade families regression =
    if below_floor config overall_grade
    then gate_failure
    else if any (family_below families) config.fail_under_family
    then gate_failure
    else if regression_blocks config regression
    then gate_failure
    else ok
