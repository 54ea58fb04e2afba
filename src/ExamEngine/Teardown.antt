-- ===== src/ExamEngine/Teardown.antt =====
-- cks_simulator/exam_engine.py, `teardown`: the claimed tasks are restored before the session is
-- deleted.
pub mod Deletes
use cks_simulator.Common.{
  String, Bool, true, false, not, ◌&&◌, ◌||◌, Option, none, some, str_eq, Kind, Exception, Result,
  ok, err, if◌then◌else◌,
}
use cks_simulator.Exam.Base.{ExamStatus, active, submitting, submitted, failed}
use cks_simulator.Exam.Session.{ExamSession, fail}
use cks_simulator.Exam.Store
use cks_simulator.Lab.State.{LabState}
use cks_simulator.Scenario.Monad.{World, Exec, pure, throw, lift, ◌>>=◌, ◌>>◌, refuse_if, locked}
use cks_simulator.ExamEngine.Task.{ExamEngine, written, save_session, attest_state, validated_lab}
use cks_simulator.ExamEngine.Restore.{restore_claimed}
use cks_simulator.ExamEngine.Grading.{load_exam}

-- `session.status in {ACTIVE, SUBMITTING}`
abbrev pub is_open : ExamStatus → Bool
is_open active = true
is_open submitting = true
is_open _ = false

-- `session.status in {FAILED, SUBMITTED}`
abbrev is_over : ExamStatus → Bool
is_over failed = true
is_over submitted = true
is_over _ = false

abbrev pub same_health : Option String → String → Bool
same_health none observed = false
same_health (some health) observed = str_eq observed health

module _ {Live : Type 0} (engine : ExamEngine Live) where
  record_failure : ExamSession → Exception → Exec Live (Unit {0})
  record_failure session error = if is_over session.status then pure tt else (do
    later ← lift (fail (engine.redacted 2048 error.message) session)
    save_session engine later session.revision)

  -- The error of the restores is raised, after it has been put on record.
  unfoldable pub if_restored : ExamSession → Option Exception → Exec Live (Unit {0})
  unfolding record_failure
  if_restored session none = pure tt
  if_restored session (some error) = do record_failure session error; throw error

  unfoldable pub teardown_locked : String → Bool → Exec Live (Unit {0})
  unfolding if_restored
  teardown_locked lab force_active = do
    session ← load_exam engine lab
    refuse_if (is_open session.status && not force_active) Kind.exam_conflict_error
        "active exam teardown requires explicit force"
    s ← validated_lab engine lab
    error ← restore_claimed engine s session
    if_restored session error
    observed ← attest_state engine lab s
    refuse_if (not (same_health s.health_fingerprint observed)) Kind.scenario_lifecycle_error
        "exam teardown did not restore trusted lab health"
    (λ w. written (Store.delete lab session.session_id w.exams) w)

  unfoldable pub teardown : String → Bool → Exec Live (Unit {0})
  unfolding teardown_locked
  teardown lab force_active = locked lab (teardown_locked lab force_active)
