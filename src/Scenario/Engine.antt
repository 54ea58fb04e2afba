-- ===== src/Scenario/Engine.antt =====
-- cks_simulator/scenarios.py, `ScenarioEngine`, and cks_simulator/recovery.py. The handlers and the
-- attestation of the lab's health are parameters, which may do anything to the world, the files of
-- the labs included. The lock makes a call one turn.
pub mod Stored
pub mod Success
pub mod Completes
pub mod Recovers
use cks_simulator.Common.{
  String, Bool, true, false, not, ◌&&◌, ◌||◌, Option, none, some, if◌then◌else◌, is_none, str_eq,
  is_sha256, Kind, Exception, Result, ok, err, raise_if, Checked,
}
use cks_simulator.LiveGrading.{GradeStatus, LiveGrade, evaluate_live_grade}
use cks_simulator.Lab.Phase.{
  LabPhase, degraded, is_candidate_ready, is_validated, is_prepared, is_degraded,
}
use cks_simulator.Lab.State.{ActiveScenario, LabState, phase}
use cks_simulator.Lab.State.Equality.{state_eq}
use cks_simulator.Lab.Store.{ScenarioPlan, RestoreRequest}
use cks_simulator.Lab.Store.Steps.{Op, attest, advance_to}
use cks_simulator.Scenario.Definition.{
  RecoveryMode, RecoverySignals, rebuild_required, select_recovery_mode, FullScenarioDefinition,
  Catalog, require,
}
use cks_simulator.Scenario.Monad.{
  World, Exec, pure, throw, fault, lift, write_prohibited, on_error, attempt, ◌>>=◌, ◌>>◌,
  refuse_if, uuid4, now_text, load_lab, store, locked,
}
use cks_simulator.Scenario.Registry.{
  ScenarioContext, scenario_context, GradeContext, construct_grade_context, GradeInputs,
  GradeSnapshot, Handler, Handlers, resolve,
}
use cks_simulator.Scenario.Probe.{Engine, collect}

-- `_require_fingerprint`
unfoldable pub require_fingerprint : String → Checked
require_fingerprint value =
    raise_if (not (is_sha256 value)) Kind.scenario_contract_error
      "fingerprint must be canonical SHA-256"

abbrev pub is_fail : GradeStatus → Bool
is_fail GradeStatus.fail = true
is_fail _ = false

-- The scenario and the handler of an active attempt are those of the definition.
abbrev pub is_attempt_of : FullScenarioDefinition → Option ActiveScenario → Bool
is_attempt_of d none = false
is_attempt_of d (some active) =
    str_eq active.scenario_id d.scenario_id && str_eq active.handler_identity d.handler_identity

module _ {Live : Type 0} (engine : Engine Live) where
  attest_state : String → LabState → Exec Live String
  attest_state lab s = do ctx ← lift (scenario_context lab s); engine.attest_health ctx

  -- `_degrade`, which swallows the errors of the store.
  unfoldable pub degrade : String → LabState → Exception → Exec Live (Unit {0})
  degrade lab s error = if is_degraded (phase s) then pure tt else (do
    now ← now_text
    _ ← attempt (store engine.namespace lab s.identity.lab_id (advance_to degraded now))
    pure tt)

  abbrev pub needs_baseline : LabState → Bool
  needs_baseline s =
      is_candidate_ready (phase s) || (is_validated (phase s) && is_none s.health_fingerprint)

  -- The lab on an attested baseline.
  unfoldable pub attested_baseline : String → LabState → Exec Live LabState
  unfolding attest_state
  attested_baseline lab s =
      if needs_baseline s
      then (do
        health ← attest_state lab s
        now ← now_text
        store engine.namespace lab s.identity.lab_id (attest health now))
      else pure s

  abbrev pub plan_of : FullScenarioDefinition → String → String → String → ScenarioPlan
  plan_of d attempt_id prepared_fingerprint restore_fingerprint = record {
    scenario_id = d.scenario_id;
    attempt_id = attempt_id;
    handler_identity = d.handler_identity;
    recovery_class = d.recovery_class;
    target_role = d.target_role;
    prepared_fingerprint = prepared_fingerprint;
    restore_fingerprint = restore_fingerprint;
  }

  -- The `try` block of `prepare`: the mutation, and the grade of the unsolved scenario.
  unfoldable pub unsolved :
      String → Handler Live → FullScenarioDefinition → String → LabState → Exec Live LabState
  unsolved lab h d prepared_fingerprint s = do
    ctx ← lift (scenario_context lab s)
    observed ← h.prepare ctx d
    refuse_if (not (str_eq observed prepared_fingerprint)) Kind.scenario_lifecycle_error
        "prepared scenario fingerprint differs from the write-ahead claim"
    untouched ← collect engine lab s h d
    result ← lift (evaluate_live_grade untouched.expected untouched.evidence untouched.signals)
    refuse_if (not (is_fail result.status)) Kind.scenario_lifecycle_error
        "untouched prepared scenario must produce a zero-score FAIL grade"
    pure s

  -- The write-ahead claim of an attempt on a validated lab.
  unfoldable pub claim_attempt :
      String → Handler Live → FullScenarioDefinition → LabState → Exec Live (String × LabState)
  claim_attempt lab h d s = do
    attempt_id ← uuid4
    ctx ← lift (scenario_context lab s)
    prepared_fingerprint ← lift (h.expected_prepared ctx d attempt_id)
    lift (require_fingerprint prepared_fingerprint)
    restore_fingerprint ← lift (h.expected_restored ctx d attempt_id)
    lift (require_fingerprint restore_fingerprint)
    now ← now_text
    claimed ←
        store engine.namespace lab s.identity.lab_id
          (Op.prepare (plan_of d attempt_id prepared_fingerprint restore_fingerprint) now)
    pure (prepared_fingerprint, claimed)

  unfoldable pub prepare_locked : String → FullScenarioDefinition → Exec Live LabState
  unfolding attested_baseline claim_attempt unsolved degrade
  prepare_locked lab d = do
    found ← load_lab engine.namespace lab
    s ← attested_baseline lab found
    refuse_if (not (is_validated (phase s))) Kind.scenario_lifecycle_error
        "scenario prepare requires validated lab"
    h ← lift (resolve d engine.handlers)
    claim ← claim_attempt lab h d s
    on_error (unsolved lab h d claim.0 claim.1) (degrade lab claim.1)

  unfoldable pub prepare : String → String → Exec Live LabState
  unfolding prepare_locked
  prepare lab scenario_id = do
    d ← lift (require scenario_id engine.catalog)
    refuse_if (not (str_eq d.support "supported")) Kind.scenario_lifecycle_error
        "full scenario is planned but not implemented"
    locked lab (prepare_locked lab d)

  -- The `try` block of `grade`.
  unfoldable pub graded_once : String → FullScenarioDefinition → LabState → Exec Live LiveGrade
  graded_once lab d before = do
    h ← lift (resolve d engine.handlers)
    inputs ← collect engine lab before h d
    lift (evaluate_live_grade inputs.expected inputs.evidence inputs.signals)

  unfoldable pub grade_locked : String → FullScenarioDefinition → Exec Live LiveGrade
  unfolding graded_once degrade
  grade_locked lab d = do
    before ← load_lab engine.namespace lab
    refuse_if (not (is_prepared (phase before)) || not (is_attempt_of d before.active_scenario))
        Kind.scenario_lifecycle_error "scenario is not the active prepared scenario"
    on_error (graded_once lab d before) (degrade lab before)

  unfoldable pub grade : String → String → Exec Live LiveGrade
  unfolding grade_locked
  grade lab scenario_id = do
    d ← lift (require scenario_id engine.catalog)
    locked lab (grade_locked lab d)

  -- The `try` block of `restore`.
  unfoldable pub restored :
      String → FullScenarioDefinition → LabState → ActiveScenario → Exec Live LabState
  restored lab d s active = do
    ctx ← lift (scenario_context lab s)
    h ← lift (resolve d engine.handlers)
    observed ← h.restore ctx d
    refuse_if (not (str_eq observed active.restore_fingerprint)) Kind.scenario_lifecycle_error
        "restored scenario fingerprint differs from recovery contract"
    health ← engine.attest_health ctx
    now ← now_text
    store engine.namespace lab s.identity.lab_id (
        Op.restore
          (record {
            scenario_id = d.scenario_id;
            attempt_id = active.attempt_id;
            health_fingerprint = health;
            scenario_fingerprint = observed;
          })
          now)

  unfoldable pub restore_active :
      String → FullScenarioDefinition → LabState → Option ActiveScenario → Exec Live LabState
  unfolding restored degrade
  restore_active lab d s none =
      fault Kind.scenario_lifecycle_error "scenario is not the active prepared scenario"
  restore_active lab d s (some active) = do
    refuse_if
        ((not (is_prepared (phase s)) && not (is_degraded (phase s)))
          || not (is_attempt_of d (some active)))
        Kind.scenario_lifecycle_error "scenario is not the active prepared scenario"
    on_error (restored lab d s active) (degrade lab s)

  unfoldable pub restore_locked : String → FullScenarioDefinition → Exec Live LabState
  unfolding restore_active
  restore_locked lab d = do
    s ← load_lab engine.namespace lab
    restore_active lab d s s.active_scenario

  unfoldable pub restore : String → String → Exec Live LabState
  unfolding restore_locked
  restore lab scenario_id = do
    d ← lift (require scenario_id engine.catalog)
    locked lab (restore_locked lab d)
