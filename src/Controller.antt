-- ===== src/Controller.antt =====
-- cks_simulator/exam_server.py, `StoredExamController`: requests of the browser over the stored
-- session. The graders, the submission hook, the digest and the JSON size are parameters; each call
-- of `utc_now` reads the next instant of a clock of which nothing is assumed. The two locks make a
-- request one step, so that a request is a function on the world.
pub mod Monad
pub mod Submit
pub mod Outcome
pub mod Snapshot
mod Examples
pub use Monad.*
use cks_simulator.Common.{
  ℕ, String, Bool, true, false, not, ◌&&◌, Option, none, some, List, [], ◌∷◌, if◌then◌else◌, is_in,
  Json, Fields, end, field, get_field, Kind, Exception, Result, ok, err,
}
use cks_simulator.Exam.Base.{
  expected_task_ids, ExamMode, practice, ExamStatus, ExamEndReason, manual, expired, active,
  submitting, submitted, preparing, failed, is_active, is_submitting, is_practice,
}
use cks_simulator.Exam.Manifest.{ExamManifest}
use cks_simulator.Exam.Session.{
  ExamSession, is_expired, update_progress, begin_submit, complete_submit, fail,
}
use cks_simulator.Exam.Store
use cks_simulator.Exam.View.{CandidateView, to_candidate_dict}
use cks_simulator.Exam.Aggregate.{Grades, aggregate_exam_grades}
use cks_simulator.LiveGrading.{LiveGrade}

-- The payload with the address of the desktop, which only an active session has.
pub record CandidatePayload : Type 0 where
  pub view : CandidateView
  pub desktop_url : Option String

-- The attributes that the constructor sets, and what the model does not implement.
pub record Setup : Type 0 where
  pub lab_name : String
  pub manifest : ExamManifest
  pub desktop_url : Option String
  pub grade_one : String → World → Result LiveGrade
  pub grade_all : Option (World → Result Grades)
  pub on_submission_start : World → Result (Unit {0})
  pub encoded_size : ExamSession → ℕ
  pub sha256 : Fields → String

-- `{task_id: self._grade_one(task_id) for task_id in EXPECTED_TASK_IDS}`
grade_each : (String → World → Result LiveGrade) → List String → Exec Grades
grade_each grade_one [] = pure []
grade_each grade_one (task_id ∷ task_ids) = do
  note (graded_task task_id)
  grade ← ask (grade_one task_id)
  rest ← grade_each grade_one task_ids
  pure ((task_id, grade) ∷ rest)

run_graders : Setup → Option (World → Result Grades) → Exec Grades
unfolding grade_each
run_graders c none = grade_each c.grade_one expected_task_ids
run_graders c (some grade_all) = do note graded_all; ask grade_all

-- `set(value).issubset(allowed)`
allowed_keys : Fields → Bool
allowed_keys end = true
allowed_keys (field k v fs) =
    is_in k ("selected" ∷ "visited" ∷ "flagged" ∷ "completed" ∷ []) && allowed_keys fs

all_bool : Fields → Bool
all_bool end = true
all_bool (field k (Json.bool b) fs) = all_bool fs
all_bool (field k v fs) = false

abbrev bool_value : Option Json → Option Bool
bool_value (some (Json.bool b)) = some b
bool_value _ = none

abbrev or_false : Option Bool → Bool
or_false none = false
or_false (some b) = b

module _ (c : Setup) where
  load_session : Exec ExamSession
  load_session w = (Store.load c.lab_name w.disk, w)

  save_session : ExamSession → ℕ → Exec (Unit {0})
  save_session s expected w = written (Store.save c.encoded_size s expected w.disk) w

  -- `_candidate_payload`
  pub candidate_payload : ExamSession → Exec CandidatePayload
  candidate_payload s = do
    now ← utc_now
    view ← lift (to_candidate_dict c.manifest now s)
    pure (record { view = view; desktop_url = if is_active s.status then c.desktop_url else none })

  -- The handler of `submit`: the session that is still submitting becomes failed, and the error is
  -- raised again.
  pub record_failure : Exception → Exec CandidatePayload
  unfolding load_session save_session
  record_failure error = do
    current ← load_session
    failing ← lift (if is_submitting current.status then fail error.message current else ok current)
    when (is_submitting current.status) (save_session failing current.revision)
    throw error

  pub grade_and_complete : ExamSession → Exec CandidatePayload
  unfolding save_session
  grade_and_complete s = do
    grades ← run_graders c c.grade_all
    receipt ← lift (aggregate_exam_grades c.sha256 s c.manifest grades)
    now ← utc_now
    done ← lift (complete_submit receipt now s)
    save_session done s.revision
    candidate_payload done

  -- The session to grade: an active one is first saved as submitting.
  submitting_session : ExamStatus → ExamEndReason → ExamSession → Exec ExamSession
  unfolding save_session
  submitting_session active reason s = do
    now ← utc_now
    started ← lift (begin_submit reason now s)
    save_session started s.revision
    note submission_started
    ask c.on_submission_start
    pure started
  submitting_session submitting reason s = pure s
  submitting_session _ reason s = throw (record {
    kind = Kind.exam_conflict_error;
    message = "exam cannot be submitted from its current state";
  })

  submit_session : ExamStatus → ExamEndReason → ExamSession → Exec CandidatePayload
  unfolding submitting_session
  submit_session submitted reason s = candidate_payload s
  submit_session status reason s = do
    ready ← submitting_session status reason s
    catch (grade_and_complete ready) record_failure

  pub submit : ExamEndReason → Exec CandidatePayload
  unfolding load_session submit_session
  submit reason = do s ← load_session; submit_session s.status reason s

  -- `is_expired` is asked only of an active session.
  expiry : ExamSession → Exec Bool
  expiry s = if is_active s.status then (do now ← utc_now; pure (is_expired now s)) else pure false

  pub snapshot : Exec CandidatePayload
  unfolding load_session expiry
  snapshot = do
    s ← load_session
    late ← expiry s
    if late then submit expired else candidate_payload s

  pub update_progress_request : String → Fields → Exec CandidatePayload
  unfolding load_session save_session allowed_keys all_bool
  update_progress_request task_id value = do
    refuse_if (not (is_in task_id expected_task_ids)) Kind.exam_state_error
        "exam task ID is invalid"
    refuse_if (not (allowed_keys value)) Kind.exam_state_error
        "exam progress request has unsupported fields"
    refuse_if (not (all_bool value)) Kind.exam_state_error
        "exam progress request values must be boolean"
    s ← load_session
    now ← utc_now
    changed ← lift (
        update_progress task_id (or_false (bool_value (get_field "selected" value)))
          (bool_value (get_field "visited" value)) (bool_value (get_field "flagged" value))
          (bool_value (get_field "completed" value)) now s)
    save_session changed s.revision
    candidate_payload changed

  pub check : String → Exec LiveGrade
  unfolding load_session
  check task_id = do
    refuse_if (not (is_in task_id expected_task_ids)) Kind.exam_state_error
        "exam task ID is invalid"
    s ← load_session
    refuse_if (not (is_active s.status)) Kind.exam_conflict_error
        "practice check requires an active session"
    refuse_if (not (is_practice s.mode)) Kind.exam_conflict_error
        "interim grading is disabled in exam mode"
    now ← utc_now
    refuse_if (is_expired now s) Kind.exam_conflict_error "exam deadline has elapsed"
    note (graded_task task_id)
    ask (c.grade_one task_id)
