-- ===== src/Scenario/Probe.antt =====
-- cks_simulator/scenarios.py, `_collect_grade_read_only`: a grader or a snapshot's evaluator between
-- two attestations of the lab, with writes prohibited.
pub mod Reads
pub mod Tame
use cks_simulator.Common.{
  String, Bool, true, false, not, ◌&&◌, ◌||◌, Option, none, some, if◌then◌else◌, is_none, str_eq,
  is_sha256, Kind, Exception, Result, ok, err, raise_if, Checked,
}
use cks_simulator.LiveGrading.{GradeStatus, LiveGrade, evaluate_live_grade}
use cks_simulator.Lab.Phase.{
  LabPhase, degraded, is_candidate_ready, is_validated, is_prepared, is_degraded,
}
use cks_simulator.Lab.State.{ActiveScenario, LabState, phase}
use cks_simulator.Lab.State.Equality.{state_eq}
use cks_simulator.Lab.Store.{ScenarioPlan, RestoreRequest}
use cks_simulator.Lab.Store.Steps.{Op, attest, advance_to}
use cks_simulator.Scenario.Definition.{
  RecoveryMode, RecoverySignals, rebuild_required, select_recovery_mode, FullScenarioDefinition,
  Catalog, require,
}
use cks_simulator.Scenario.Monad.{
  World, Exec, pure, throw, fault, lift, write_prohibited, on_error, attempt, ◌>>=◌, ◌>>◌,
  refuse_if, uuid4, now_text, load_lab, store, locked,
}
use cks_simulator.Scenario.Registry.{
  ScenarioContext, scenario_context, GradeContext, construct_grade_context, GradeInputs,
  GradeSnapshot, Handler, Handlers, resolve,
}

pub record Engine (Live : Type 0) : Type 0 where
  pub namespace : String
  pub catalog : Catalog
  pub handlers : Handlers Live
  pub attest_health : ScenarioContext → Exec Live String

module _ {Live : Type 0} (engine : Engine Live) where
  -- `_grade_context`
  grade_context : LabState → Option ActiveScenario → Exec Live GradeContext
  grade_context s none =
      fault Kind.scenario_lifecycle_error "grade requires an active scenario attempt"
  grade_context s (some active) = lift (
      construct_grade_context (record {
        lab_name = s.identity.lab_name;
        lab_id = s.identity.lab_id;
        scenario_id = active.scenario_id;
        attempt_id = active.attempt_id;
        target_role = active.target_role;
      }))

  evaluate :
      Option (GradeSnapshot → FullScenarioDefinition → Result GradeInputs)
      → GradeSnapshot
      → FullScenarioDefinition
      → Exec Live GradeInputs
  evaluate none snapshot d = fault Kind.scenario_lifecycle_error "snapshot evaluator is unavailable"
  evaluate (some evaluator) snapshot d = lift (evaluator snapshot d)

  run_grader :
      Option (GradeContext → FullScenarioDefinition → Exec Live GradeInputs)
      → GradeContext
      → FullScenarioDefinition
      → Exec Live GradeInputs
  run_grader none ctx d = fault Kind.scenario_lifecycle_error "grade handler is unavailable"
  run_grader (some grader) ctx d = grader ctx d

  run_probe :
      Option (GradeContext → FullScenarioDefinition → LabState → Exec Live GradeSnapshot)
      → Handler Live
      → FullScenarioDefinition
      → LabState
      → GradeContext
      → Exec Live GradeInputs
  unfolding evaluate run_grader
  run_probe none h d before ctx = run_grader h.grader ctx d
  run_probe (some collector) h d before ctx = do
    snapshot ← collector ctx d before
    evaluate h.snapshot_evaluator snapshot d

  -- What the `with` block collects, while writes are prohibited.
  probe : Handler Live → FullScenarioDefinition → LabState → Exec Live GradeInputs
  unfolding grade_context run_probe
  probe h d before = do
    ctx ← grade_context before before.active_scenario
    run_probe h.snapshot_collector h d before ctx

  -- The health and the state after the probe.
  integrity : String → ScenarioContext → Exec Live (String × LabState)
  integrity lab ctx = do
    health ← engine.attest_health ctx
    after ← load_lab engine.namespace lab
    pure (health, after)

  or_unattested : Result (String × LabState) → Exec Live (String × LabState)
  or_unattested (ok found) = pure found
  or_unattested (err e) =
      fault Kind.scenario_lifecycle_error "grade post-probe integrity attestation failed"

  -- `_collect_grade_read_only`
  unfoldable pub collect :
      String → LabState → Handler Live → FullScenarioDefinition → Exec Live GradeInputs
  unfolding probe integrity or_unattested
  collect lab s h d = do
    before ← load_lab engine.namespace lab
    refuse_if (not (state_eq before s)) Kind.scenario_lifecycle_error
        "scenario state changed before grade collection"
    ctx ← lift (scenario_context lab before)
    health_before ← engine.attest_health ctx
    outcome ← attempt (write_prohibited (probe h d before))
    checked ← attempt (integrity lab ctx)
    found ← or_unattested checked
    refuse_if (not (state_eq found.1 before)) Kind.scenario_lifecycle_error
        "grade changed persistent lab state"
    refuse_if (not (str_eq found.0 health_before)) Kind.scenario_lifecycle_error
        "grade changed live lab state"
    lift outcome
