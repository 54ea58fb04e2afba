-- ===== src/ExamEngine/Start.antt =====
-- cks_simulator/exam_engine.py, `start`. The local variable `session`, which the handler of the `try`
-- reads, is part of the outcome of the block.
pub mod Rounds
use cks_simulator.Common.{
  ℕ, String, Bool, true, false, not, ◌&&◌, ◌==◌, Option, none, some, List, [], ◌∷◌, length, str_eq,
  ◌+++◌, if◌then◌else◌, Kind, Exception, Result, ok, err, Checked,
}
use cks_simulator.LiveGrading.{LiveGrade}
use cks_simulator.Exam.Base.{expected_task_ids, ExamMode}
use cks_simulator.Exam.Session.{
  ExamSession, create, claim_preparation, confirm_preparation, activate, fail,
}
use cks_simulator.Exam.Store
use cks_simulator.Lab.State.{LabState}
use cks_simulator.Scenario.Definition.{require}
use cks_simulator.Scenario.Monad.{
  World, Exec, pure, throw, lift, attempt, ◌>>=◌, ◌>>◌, refuse_if, uuid4, now_instant, locked,
}
use cks_simulator.Scenario.Registry.{scenario_context, resolve}
use cks_simulator.Scenario.Engine.{is_fail}
use cks_simulator.ExamEngine.Task.{
  ProgressEvent, ExamEngine, written, report, save_session, attest_state, validated_lab, task_state,
  collect_task,
}
use cks_simulator.ExamEngine.Restore.{restore_claimed}

abbrev pub settled : ExamSession → Result ExamSession → ExamSession × Checked
settled session (ok later) = (later, ok tt)
settled session (err e) = (session, err e)

abbrev pub unless_raised :
    {Live A : Type 0}
    → (ExamSession → Exec Live (ExamSession × Result A))
    → ExamSession × Checked
    → Exec Live (ExamSession × Result A)
unless_raised rest (session, ok _) = rest session
unless_raised rest (session, err e) = pure (session, err e)

abbrev pub known_health : Option String → String → Bool
known_health none observed = false
known_health (some health) observed = str_eq observed health

module _ {Live : Type 0} (engine : ExamEngine Live) where
  -- The claim of one task is on record before the task is changed.
  unfoldable pub claim_task : ExamSession → String → Exec Live ExamSession
  claim_task session task_id = do
    claimed ← lift (claim_preparation task_id session)
    save_session engine claimed session.revision
    pure claimed

  abbrev event_of : String → ℕ → Bool → ProgressEvent
  event_of detail done whole = record {
    event_stage = 7;
    event_title = "Exam task baseline";
    event_detail = detail;
    current = some done;
    total = some (length expected_task_ids);
    is_completed = whole;
  }

  -- The rest of one round: the task is changed, is graded untouched, and is confirmed.
  unfoldable pub prepare_claimed : String → LabState → String → ExamSession → Exec Live ExamSession
  prepare_claimed lab s task_id session = do
    d ← lift (require task_id engine.catalog)
    report engine (event_of "Preparing task" (length session.prepared_task_ids) false)
    h ← lift (resolve d engine.handlers)
    view ← task_state engine s session task_id
    ctx ← lift (scenario_context lab view.0)
    observed ← h.prepare ctx d
    refuse_if (not (str_eq observed view.1.prepared_fingerprint)) Kind.scenario_lifecycle_error
        "exam task differs from its write-ahead contract"
    untouched ← collect_task engine lab s session task_id
    refuse_if (not (is_fail untouched.status && (untouched.score == 0)))
        Kind.scenario_lifecycle_error "untouched exam task must grade FAIL 0"
    confirmed ← lift (confirm_preparation task_id session)
    save_session engine confirmed session.revision
    pure confirmed

  unfoldable pub after_claim :
      String
      → LabState
      → String
      → ExamSession
      → Result ExamSession
      → Exec Live (ExamSession × Checked)
  unfolding prepare_claimed
  after_claim lab s task_id session (err e) = pure (session, err e)
  after_claim lab s task_id session (ok claimed) = do
    prepared ← attempt (prepare_claimed lab s task_id claimed)
    pure (settled claimed prepared)

  -- One round of the loop: the session at its end, and whether it has raised.
  unfoldable pub prepare_task :
      String → LabState → String → ExamSession → Exec Live (ExamSession × Checked)
  unfolding claim_task after_claim
  prepare_task lab s task_id session = do
    claimed ← attempt (claim_task session task_id)
    after_claim lab s task_id session claimed

  unfoldable pub prepare_tasks :
      String → LabState → List String → ExamSession → Exec Live (ExamSession × Checked)
  unfolding prepare_task
  prepare_tasks lab s [] session = pure (session, ok tt)
  prepare_tasks lab s (t ∷ ts) session =
      prepare_task lab s t session >>= unless_raised (λ later. prepare_tasks lab s ts later)

  -- The end of the `try` block, on the trusted health of before.
  unfoldable pub activate_prepared : String → LabState → ExamSession → Exec Live ExamSession
  activate_prepared lab s session = do
    observed ← attest_state engine lab s
    refuse_if (not (known_health s.health_fingerprint observed)) Kind.scenario_lifecycle_error
        "combined exam baseline changed trusted health identity"
    now ← now_instant
    active ← lift (activate now session)
    save_session engine active session.revision
    report engine
        (event_of "All exam tasks are prepared and gradeable" (length expected_task_ids) true)
    pure active

  unfoldable pub activating :
      String → LabState → ExamSession → Exec Live (ExamSession × Result ExamSession)
  activating lab s session = do
    outcome ← attempt (activate_prepared lab s session)
    pure (session, outcome)

  abbrev failure_text : Exception → Option Exception → String
  failure_text e none = engine.redacted 1536 e.message
  failure_text e (some recovery) =
      engine.redacted 1536 e.message +++ "; recovery: " +++ engine.redacted 384 recovery.message

  -- The handler of the `try` block.
  unfoldable pub or_recovered : LabState → ExamSession → Result ExamSession → Exec Live ExamSession
  or_recovered s session (ok active) = pure active
  or_recovered s session (err e) = do
    recovery ← restore_claimed engine s session
    failed ← lift (fail (failure_text e recovery) session)
    save_session engine failed session.revision
    throw e

  -- The arguments of `ExamSession.create` that are drawn: the session's identifier and those of the
  -- attempts.
  unfoldable pub start_locked : String → ExamMode → ℕ → (String → String) → Exec Live ExamSession
  unfolding prepare_tasks activating or_recovered activate_prepared
  start_locked lab mode duration attempt_id = do
    s ← validated_lab engine lab
    present ← (λ w. (Store.exists lab w.exams, w))
    refuse_if present Kind.exam_conflict_error "exam session already exists"
    now ← now_instant
    session_id ← uuid4
    session ←
        lift (create lab s.identity.lab_id mode engine.manifest duration now session_id attempt_id)
    (λ w. written (Store.create engine.encoded_size session w.exams) w)
    reached ← (prepare_tasks lab s expected_task_ids session >>= unless_raised (activating lab s))
    or_recovered s reached.0 reached.1

  unfoldable pub start : String → ExamMode → ℕ → (String → String) → Exec Live ExamSession
  unfolding start_locked
  start lab mode duration attempt_id = locked lab (start_locked lab mode duration attempt_id)
