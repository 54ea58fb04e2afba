-- ===== src/Controller/Submit.antt =====
-- `submit`: what a submission leaves in the store, whether the graders return or raise.
use cks_simulator.Common.{
  suc, ◌≤◌, ◌<◌, ◌≡◌, refl, sym, ◌∙◌, true, false, some, [], ◌∷◌, ◌++◌, is_blank, is_identifier,
  Fields, no_fields, Kind, Exception, Result, ok, err, Raises, arith,
}
use cks_simulator.Exam.Base.{ExamEndReason, active, submitting}
use cks_simulator.Exam.Session.{ExamSession}
use cks_simulator.Exam.Session.Valid.{IsValid}
use cks_simulator.Exam.Session.Submission.{
  with_submission, with_receipt, with_failure, begin_submit_active, complete_submit_submitting,
  fail_unsubmitted, fail_blank,
}
use cks_simulator.Exam.Store
use cks_simulator.Exam.Store.{Disk, stored, max_exam_state_bytes, put}
use cks_simulator.Exam.Store.Writes.{put_self, load_stored, save_iff}
use cks_simulator.Exam.Aggregate.{Grades, aggregate_exam_grades}
use cks_simulator.Controller.Monad.{World, submission_started, graded_all, catch}
use cks_simulator.Controller.{
  Setup, save_session, candidate_payload, record_failure, run_graders, grade_and_complete, submit,
}

-- The lab's file holds a valid session of that lab, and every session fits into a file.
pub record Holds (c : Setup) (w : World) (s : ExamSession) : Type 0 where
  pub found : w.disk c.lab_name ≡ stored s
  pub own_lab : s.lab_name ≡ c.lab_name
  pub valid : IsValid s
  pub fits : (t : ExamSession) → c.encoded_size t ≤ max_exam_state_bytes

-- The world in which the graders are called: the session is saved as submitting.
abbrev pub submitting_world : Setup → World → ExamSession → ExamEndReason → World
submitting_world c w s reason = record w {
  disk = put c.lab_name (stored (with_submission reason (w.clock w.ticks) s)) w.disk;
  ticks = suc w.ticks;
  events = w.events ++ submission_started ∷ [];
}

module _ (c : Setup) (w : World) (s : ExamSession) (h : Holds c w s) where
  named : is_identifier c.lab_name ≡ true
  named = rw (← h.own_lab) h.valid.lab_name_safe

  pub load-Holds : Store.load c.lab_name w.disk ≡ ok s
  load-Holds = load_stored c.lab_name s w.disk named h.found

  -- A save of the same session with a newer revision goes through.
  pub save-Holds :
      (t : ExamSession)
      → t.session_id ≡ s.session_id
      → t.lab_name ≡ s.lab_name
      → s.revision < t.revision
      → Store.save c.encoded_size t s.revision w.disk ≡ ok (put c.lab_name (stored t) w.disk)
  save-Holds t same lab newer =
      let own : t.lab_name ≡ c.lab_name = lab ∙ h.own_lab in
      (save_iff c.encoded_size t s.revision w.disk (put c.lab_name (stored t) w.disk)).1 (
        s,
        record {
          named = rw own named;
          present = rw own h.found;
          same_session = sym same;
          unchanged = refl;
          newer = newer;
          fits = h.fits t;
        },
        rw own refl,
      )

  pub submit_active :
      (reason : ExamEndReason)
      → s.status ≡ active
      → c.on_submission_start (submitting_world c w s reason) ≡ ok tt
      → submit c reason w
        ≡ catch
            (grade_and_complete c (with_submission reason (w.clock w.ticks) s))
            (record_failure c)
            (submitting_world c w s reason)
  unfolding submit save_session
  submit_active reason live hook = ground (
    arith,
    load-Holds,
    (begin_submit_active s h.valid reason (w.clock w.ticks) live).0,
    save-Holds (with_submission reason (w.clock w.ticks) s) refl refl (omega arith),
  )

  pub submitting-Holds :
      (reason : ExamEndReason)
      → s.status ≡ active
      → Holds c (submitting_world c w s reason) (with_submission reason (w.clock w.ticks) s)
  submitting-Holds reason live = record {
    found = put_self c.lab_name (stored (with_submission reason (w.clock w.ticks) s)) w.disk;
    own_lab = h.own_lab;
    valid = (begin_submit_active s h.valid reason (w.clock w.ticks) live).1;
    fits = h.fits;
  }

-- The graders of the whole exam are called in this world.
abbrev pub grading_world : World → World
grading_world w = record w { events = w.events ++ graded_all ∷ [] }

-- The payload is built in this world, with the receipt saved.
abbrev pub finished_world : Setup → World → ExamSession → Fields → World
finished_world c w s receipt = record (grading_world w) {
  disk = put c.lab_name (stored (with_receipt receipt (w.clock w.ticks) s)) w.disk;
  ticks = suc w.ticks;
}

module _ (c : Setup) (f : World → Result Grades) (w : World) (s : ExamSession) (h : Holds c w s)
    (whole : c.grade_all ≡ some f) (ready : s.status ≡ submitting) where
  -- A grader's error with a message is recorded, and raised again.
  pub grading_error :
      (e : Exception)
      → f (grading_world w) ≡ err e
      → is_blank e.message ≡ false
      → catch (grade_and_complete c s) (record_failure c) w ≡ (
        err e,
        record (grading_world w) {
          disk = put c.lab_name (stored (with_failure e.message s)) w.disk;
        },
      )
  unfolding grade_and_complete run_graders record_failure
  grading_error e raised told = ground (
    arith,
    load-Holds c w s h,
    (fail_unsubmitted s h.valid e.message (λ x. ground arith) told).0,
    save-Holds c w s h (with_failure e.message s) refl refl (omega arith),
  )

  -- An error without a message is not recorded: the handler itself raises.
  pub grading_blank_error :
      (e : Exception)
      → f (grading_world w) ≡ err e
      → is_blank e.message ≡ true
      → Raises Kind.exam_state_error (catch (grade_and_complete c s) (record_failure c) w).0
        × ((catch (grade_and_complete c s) (record_failure c) w).1.disk ≡ w.disk)
  unfolding grade_and_complete run_graders record_failure
  grading_blank_error e raised blank =
      ground (arith, load-Holds c w s h, fail_blank e.message s blank)

  -- Grades for every task are added up, and the receipt is saved.
  pub grading_ok :
      (grades : Grades) (receipt : Fields) (reason : ExamEndReason)
      → f (grading_world w) ≡ ok grades
      → s.end_reason ≡ some reason
      → aggregate_exam_grades c.sha256 s c.manifest grades ≡ ok receipt
      → no_fields receipt ≡ false
      → catch (grade_and_complete c s) (record_failure c) w
        ≡ catch
            (λ _.
              candidate_payload c
                (with_receipt receipt (w.clock w.ticks) s)
                (finished_world c w s receipt))
            (record_failure c)
            w
  unfolding grade_and_complete run_graders
  grading_ok grades receipt reason graded why added full = ground (
    arith,
    (complete_submit_submitting s h.valid reason receipt (w.clock w.ticks) ready why full).0,
    save-Holds c w s h (with_receipt receipt (w.clock w.ticks) s) refl refl (omega arith),
  )
