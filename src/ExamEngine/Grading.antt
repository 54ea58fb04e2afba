-- ===== src/ExamEngine/Grading.antt =====
-- cks_simulator/exam_engine.py: `load`, `grade_task`, `grade_all`, `final_receipt` and
-- `apply_reference_all`.
pub mod Guards
use cks_simulator.Common.{
  ℕ, String, Bool, true, false, not, ◌&&◌, ◌||◌, ◌==◌, Option, none, some, List, [], ◌∷◌, str_eq,
  is_in, Fields, if◌then◌else◌, Kind, Result, ok, err, Checked,
}
use cks_simulator.LiveGrading.{GradeStatus, LiveGrade}
use cks_simulator.Exam.Base.{expected_task_ids, is_active, is_submitting, is_practice}
use cks_simulator.Exam.Session.{ExamSession}
use cks_simulator.Exam.Aggregate.{Grades, aggregate_exam_grades}
use cks_simulator.Exam.Store
use cks_simulator.Lab.State.{LabState}
use cks_simulator.Lab.State.Equality.{state_eq}
use cks_simulator.Scenario.Definition.{require}
use cks_simulator.Scenario.Monad.{
  World, Exec, pure, fault, lift, ◌>>=◌, ◌>>◌, refuse_if, load_lab, locked,
}
use cks_simulator.Scenario.Registry.{scenario_context}
use cks_simulator.Scenario.Reference.{References, execute}
use cks_simulator.ExamEngine.Task.{
  ExamEngine, attest_state, validated_lab, task_state, collect_task,
}

module _ {Live : Type 0} (engine : ExamEngine Live) where
  -- `load`
  unfoldable pub load_exam : String → Exec Live ExamSession
  load_exam lab = do
    session ← (λ w. (Store.load lab w.exams, w))
    s ← load_lab engine.namespace lab
    refuse_if (not (str_eq session.lab_id s.identity.lab_id)) Kind.exam_conflict_error
        "exam session no longer matches the owned lab"
    pure session

  -- A collection between two attestations, behind which the lab is as it was.
  unfoldable pub unchanged : {A : Type 0} → String → LabState → Exec Live A → Exec Live A
  unchanged lab s collection = do
    before ← attest_state engine lab s
    collected ← collection
    after_state ← load_lab engine.namespace lab
    after ← attest_state engine lab after_state
    refuse_if (not (state_eq after_state s) || not (str_eq after before))
        Kind.scenario_lifecycle_error "exam grading changed persistent or live lab state"
    pure collected

  unfoldable pub grade_task_locked : String → String → Exec Live LiveGrade
  unfolding load_exam unchanged
  grade_task_locked lab task_id = do
    session ← load_exam lab
    refuse_if (not (is_active session.status)) Kind.exam_conflict_error
        "interim grading requires an active exam"
    s ← validated_lab engine lab
    unchanged lab s (collect_task engine lab s session task_id)

  unfoldable pub grade_task : String → String → Exec Live LiveGrade
  unfolding grade_task_locked
  grade_task lab task_id = do
    refuse_if (not (is_in task_id expected_task_ids)) Kind.scenario_lifecycle_error
        "exam task ID is invalid"
    locked lab (grade_task_locked lab task_id)

  -- The dictionary of the grades of the given tasks.
  unfoldable pub collect_each : String → LabState → ExamSession → List String → Exec Live Grades
  collect_each lab s session [] = pure []
  collect_each lab s session (t ∷ ts) = do
    grade ← collect_task engine lab s session t
    grades ← collect_each lab s session ts
    pure ((t, grade) ∷ grades)

  unfoldable pub grade_all_locked : String → Exec Live Grades
  unfolding load_exam unchanged collect_each
  grade_all_locked lab = do
    session ← load_exam lab
    refuse_if (not (is_submitting session.status)) Kind.exam_conflict_error
        "final grading requires a submitting exam"
    s ← validated_lab engine lab
    unchanged lab s (collect_each lab s session expected_task_ids)

  unfoldable pub grade_all : String → Exec Live Grades
  unfolding grade_all_locked
  grade_all lab = locked lab (grade_all_locked lab)

  unfoldable pub final_receipt : String → Exec Live Fields
  unfolding load_exam grade_all
  final_receipt lab = do
    session ← load_exam lab
    grades ← grade_all lab
    lift (aggregate_exam_grades engine.sha256 session engine.manifest grades)

  -- The loop over the reference actions, each with the view of its task.
  unfoldable pub apply_each :
      References Live → String → LabState → ExamSession → List String → Exec Live (Unit {0})
  apply_each references lab s session [] = pure tt
  apply_each references lab s session (t ∷ ts) = do
    d ← lift (require t engine.catalog)
    view ← task_state engine s session t
    ctx ← lift (scenario_context lab view.0)
    execute d ctx 900 references
    apply_each references lab s session ts

  is_full : LiveGrade → Bool
  is_full grade = elim grade.status [ GradeStatus.pass ↦ grade.score == 10000 | _ ↦ false ]

  all_full : Grades → Bool
  unfolding is_full
  all_full [] = true
  all_full ((_, grade) ∷ grades) = is_full grade && all_full grades

  unfoldable pub apply_reference_locked :
      References Live → (LabState → Exec Live (Unit {0})) → String → Exec Live Grades
  unfolding load_exam apply_each collect_each all_full
  apply_reference_locked references compose lab = do
    session ← load_exam lab
    refuse_if (not (is_active session.status) || not (is_practice session.mode))
        Kind.exam_conflict_error "reference validation requires an active practice session"
    s ← validated_lab engine lab
    apply_each references lab s session expected_task_ids
    compose s
    before ← attest_state engine lab s
    grades ← collect_each lab s session expected_task_ids
    after ← attest_state engine lab s
    refuse_if (not (str_eq after before) || not (all_full grades)) Kind.scenario_lifecycle_error
        "combined reference solution did not grade PASS 100"
    pure grades

  with_reference :
      Option (References Live)
      → Option (LabState → Exec Live (Unit {0}))
      → String
      → Exec Live Grades
  unfolding apply_reference_locked
  with_reference (some references) (some compose) lab =
      locked lab (apply_reference_locked references compose lab)
  with_reference _ _ lab =
      fault Kind.exam_conflict_error "combined exam reference actions are unavailable"

  -- `apply_reference_all`
  unfoldable pub apply_reference_all : String → Exec Live Grades
  unfolding with_reference
  apply_reference_all lab = with_reference engine.references engine.compose_reference_apiserver lab
