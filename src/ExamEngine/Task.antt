-- ===== src/ExamEngine/Task.antt =====
-- cks_simulator/exam_engine.py: the parts of the engine, the baseline of an exam, and the grade of one
-- task. The view of an active attempt is made for the handler only and is never stored.
use cks_simulator.Common.{
  ℕ, String, Bool, true, false, not, ◌&&◌, ◌||◌, Option, none, some, List, [], ◌∷◌, leb, ltb,
  is_none, is_blank, str_eq, if◌then◌else◌, Fields, Kind, Result, ok, err, raise,
}
use cks_simulator.LiveGrading.{LiveGrade, evaluate_live_grade}
use cks_simulator.Exam.Session.{ExamTaskProgress, ExamSession}
use cks_simulator.Exam.Manifest.{ExamManifest}
use cks_simulator.Exam.Store
use cks_simulator.Lab.Phase.{scenario_prepared, is_candidate_ready, is_validated}
use cks_simulator.Lab.State.{ActiveScenario, LabState, phase, construct_active, construct}
use cks_simulator.Lab.Store.{appended}
use cks_simulator.Lab.Store.Steps.{attest}
use cks_simulator.Scenario.Definition.{FullScenarioDefinition, Catalog, require}
use cks_simulator.Scenario.Monad.{
  Exec, pure, fault, lift, write_prohibited, ◌>>=◌, ◌>>◌, refuse_if, now_text, load_lab, store,
}
use cks_simulator.Scenario.Registry.{
  ScenarioContext, scenario_context, GradeContext, construct_grade_context, GradeInputs,
  GradeSnapshot, Handler, Handlers, resolve,
}
use cks_simulator.Scenario.Reference.{References}

-- `ProgressEvent` (cks_simulator/progress.py).
pub record ProgressEvent : Type 0 where
  pub event_stage : ℕ
  pub event_title : String
  pub event_detail : String
  pub current : Option ℕ
  pub total : Option ℕ
  pub is_completed : Bool

count_is_bad : Option ℕ → Option ℕ → Bool
count_is_bad (some current) (some total) = ltb total 1 || not (leb current total)
count_is_bad (some current) none = true
count_is_bad none total = false

unfoldable pub construct_event : ProgressEvent → Result ProgressEvent
unfolding count_is_bad
construct_event e =
    if ltb e.event_stage 1
    then raise Kind.value_error "progress stage must be positive"
    else if is_blank e.event_title || is_blank e.event_detail
    then raise Kind.value_error "progress title and detail must not be empty"
    else if (is_none e.current && not (is_none e.total))
        || (not (is_none e.current) && is_none e.total)
    then raise Kind.value_error "progress current and total must be supplied together"
    else if count_is_bad e.current e.total
    then raise Kind.value_error "progress sub-count is invalid"
    else ok e

-- `ExamEngine.__init__`, with the size of an encoded session, the SHA-256 of a receipt, and
-- `bounded_redacted` of a text with its limit.
pub record ExamEngine (Live : Type 0) : Type 0 where
  pub namespace : String
  pub manifest : ExamManifest
  pub catalog : Catalog
  pub handlers : Handlers Live
  pub attest_health : ScenarioContext → Exec Live String
  pub references : Option (References Live)
  pub compose_reference_apiserver : Option (LabState → Exec Live (Unit {0}))
  pub progress : Option (ProgressEvent → Exec Live (Unit {0}))
  pub encoded_size : ExamSession → ℕ
  pub sha256 : Fields → String
  pub redacted : ℕ → String → String

module _ {Live : Type 0} where
  -- The files of the exams behind an operation of their store.
  abbrev pub written : Result Store.Disk → Exec Live (Unit {0})
  written (ok disk) w = (ok tt, record w { exams = disk })
  written (err e) w = (err e, w)

  called : Option (ProgressEvent → Exec Live (Unit {0})) → ProgressEvent → Exec Live (Unit {0})
  called none e = pure tt
  called (some callback) e = callback e

-- A lab that is validated on a trusted health, and without a scenario.
abbrev pub is_baseline : LabState → Bool
is_baseline s =
    is_validated (phase s) && not (is_none s.health_fingerprint) && is_none s.active_scenario

module _ {Live : Type 0} (engine : ExamEngine Live) where
  -- `_report`
  unfoldable pub report : ProgressEvent → Exec Live (Unit {0})
  unfolding called
  report e = do made ← lift (construct_event e); called engine.progress made

  abbrev pub save_session : ExamSession → ℕ → Exec Live (Unit {0})
  save_session s expected_revision w =
      written (Store.save engine.encoded_size s expected_revision w.exams) w

  -- `self._attest_health(ScenarioContext(lab_name, state))`
  unfoldable pub attest_state : String → LabState → Exec Live String
  attest_state lab s = do ctx ← lift (scenario_context lab s); engine.attest_health ctx

  attested_lab : String → LabState → Exec Live LabState
  unfolding attest_state
  attested_lab lab s =
      if is_candidate_ready (phase s) || (is_validated (phase s) && is_none s.health_fingerprint)
      then (do
        health ← attest_state lab s
        now ← now_text
        store engine.namespace lab s.identity.lab_id (attest health now))
      else pure s

  -- `_validated_lab`
  unfoldable pub validated_lab : String → Exec Live LabState
  unfolding attested_lab
  validated_lab lab = do
    found ← load_lab engine.namespace lab
    s ← attested_lab lab found
    refuse_if (not (is_baseline s)) Kind.scenario_lifecycle_error
        "combined exam requires a validated lab with no active serial scenario"
    pure s

  -- `next(item for item in session.tasks if item.task_id == task_id)`
  progress_of : String → List ExamTaskProgress → Result ExamTaskProgress
  progress_of task_id [] = raise Kind.other "StopIteration"
  progress_of task_id (p ∷ ps) = if str_eq p.task_id task_id then ok p else progress_of task_id ps

  abbrev baseline_text : Option String → String
  baseline_text none = ""
  baseline_text (some health) = health

  abbrev pub view_with : LabState → ActiveScenario → String → LabState
  view_with s active now = record s {
    journal = appended s scenario_prepared now;
    active_scenario = some active;
  }

  -- `_task_state`: the view, and its active attempt.
  unfoldable pub task_state :
      LabState → ExamSession → String → Exec Live (LabState × ActiveScenario)
  unfolding progress_of
  task_state s session task_id = do
    d ← lift (require task_id engine.catalog)
    refuse_if (not (str_eq d.support "supported")) Kind.scenario_lifecycle_error
        "exam task is not supported"
    p ← lift (progress_of task_id session.tasks)
    h ← lift (resolve d engine.handlers)
    ctx ← lift (scenario_context s.identity.lab_name s)
    prepared ← lift (h.expected_prepared ctx d p.attempt_id)
    restored ← lift (h.expected_restored ctx d p.attempt_id)
    active ← lift (
        construct_active (record {
          scenario_id = task_id;
          attempt_id = p.attempt_id;
          handler_identity = d.handler_identity;
          recovery_class = d.recovery_class;
          target_role = d.target_role;
          baseline_fingerprint = baseline_text s.health_fingerprint;
          prepared_fingerprint = prepared;
          restore_fingerprint = restored;
        }))
    now ← now_text
    view ← lift (construct (view_with s active now))
    pure (view, active)

  evaluated :
      Option (GradeSnapshot → FullScenarioDefinition → Result GradeInputs)
      → GradeSnapshot
      → FullScenarioDefinition
      → Exec Live GradeInputs
  evaluated none snapshot d =
      fault Kind.scenario_lifecycle_error "exam task observation contract is invalid"
  evaluated (some evaluator) snapshot d = lift (evaluator snapshot d)

  graded_by :
      Option (GradeContext → FullScenarioDefinition → Exec Live GradeInputs)
      → GradeContext
      → FullScenarioDefinition
      → Exec Live GradeInputs
  graded_by none ctx d = fault Kind.scenario_lifecycle_error "exam task has no trusted grader"
  graded_by (some grader) ctx d = grader ctx d

  observed_by :
      Option (GradeContext → FullScenarioDefinition → LabState → Exec Live GradeSnapshot)
      → Handler Live
      → FullScenarioDefinition
      → LabState
      → GradeContext
      → Exec Live GradeInputs
  unfolding evaluated graded_by
  observed_by none h d view ctx = graded_by h.grader ctx d
  observed_by (some collector) h d view ctx = do
    snapshot ← collector ctx d view
    evaluated h.snapshot_evaluator snapshot d

  -- The `with` block of `_collect_task`, while writes are prohibited.
  observe :
      String
      → LabState
      → String
      → FullScenarioDefinition
      → Handler Live
      → LabState
      → ActiveScenario
      → Exec Live GradeInputs
  unfolding observed_by
  observe lab s task_id d h view active = do
    ctx ← lift (
        construct_grade_context (record {
          lab_name = lab;
          lab_id = s.identity.lab_id;
          scenario_id = task_id;
          attempt_id = active.attempt_id;
          target_role = active.target_role;
        }))
    observed_by h.snapshot_collector h d view ctx

  -- `_collect_task`
  unfoldable pub collect_task : String → LabState → ExamSession → String → Exec Live LiveGrade
  unfolding task_state observe
  collect_task lab s session task_id = do
    d ← lift (require task_id engine.catalog)
    h ← lift (resolve d engine.handlers)
    view ← task_state s session task_id
    inputs ← write_prohibited (observe lab s task_id d h view.0 view.1)
    lift (evaluate_live_grade inputs.expected inputs.evidence inputs.signals)
