-- ===== src/Exam/Session/Submission.antt =====
-- Submission: from active to submitting to submitted, or to failed.
use cks_simulator.Common.{
  ℕ, zero, suc, ◌+◌, ◌≤◌, ◌≡◌, ◌≢◌, String, true, false, some, take_text, text_length, is_blank,
  Fields, no_fields, Kind, raise, ok, arith,
}
use cks_simulator.Exam.Base.{ExamEndReason, active, submitting, submitted, failed, Instant}
use cks_simulator.Exam.Session.{
  ExamSession, is_expired, observed_reason, begin_submit, complete_submit, fail,
}
use cks_simulator.Exam.Session.Valid.{IsValid, construct-IsValid}

abbrev pub with_submission : ExamEndReason → Instant → ExamSession → ExamSession
with_submission reason now s = record s {
  status = submitting;
  end_reason = some (observed_reason reason (is_expired now s));
  revision = s.revision + 1;
}

abbrev pub with_receipt : Fields → Instant → ExamSession → ExamSession
with_receipt receipt now s = record s {
  status = submitted;
  submitted_at = some now;
  receipt = some receipt;
  revision = s.revision + 1;
}

abbrev pub with_failure : String → ExamSession → ExamSession
with_failure detail s = record s {
  status = failed;
  failure = some (take_text 2048 detail);
  revision = s.revision + 1;
}

text_length-take_text : (n : ℕ) (t : String) → text_length (take_text n t) ≤ n
unfolding take_text
text_length-take_text zero t = omega arith
text_length-take_text (suc n) String.[] = omega arith
text_length-take_text (suc n) (String.◌∷◌ c t) = omega (arith, text_length-take_text n t)

module _ (s : ExamSession) (v : IsValid s) where
  -- An active session begins its submission without an error.
  pub begin_submit_active :
      (reason : ExamEndReason) (now : Instant)
      → s.status ≡ active
      → (begin_submit reason now s ≡ ok (with_submission reason now s))
        × IsValid (with_submission reason now s)
  unfolding begin_submit
  begin_submit_active reason now live =
      let valid : IsValid (with_submission reason now s) = ground arith in
      (ground (arith, construct-IsValid (with_submission reason now s) valid), valid)

  -- A submitting session with a reason takes any receipt that is not empty.
  pub complete_submit_submitting :
      (reason : ExamEndReason) (receipt : Fields) (now : Instant)
      → s.status ≡ submitting
      → s.end_reason ≡ some reason
      → no_fields receipt ≡ false
      → (complete_submit receipt now s ≡ ok (with_receipt receipt now s))
        × IsValid (with_receipt receipt now s)
  unfolding complete_submit
  complete_submit_submitting reason receipt now ready why full =
      let valid : IsValid (with_receipt receipt now s) = ground arith in
      (ground (arith, construct-IsValid (with_receipt receipt now s) valid), valid)

  -- A session without a receipt fails with any detail that is not blank.
  pub fail_unsubmitted :
      (detail : String)
      → s.status ≢ submitted
      → is_blank detail ≡ false
      → (fail detail s ≡ ok (with_failure detail s)) × IsValid (with_failure detail s)
  unfolding fail
  fail_unsubmitted detail open_still told =
      let valid : IsValid (with_failure detail s) =
        ground (arith, text_length-take_text 2048 detail) in
      (ground (arith, construct-IsValid (with_failure detail s) valid), valid)

-- A blank detail is refused, whatever the session.
pub fail_blank :
    (detail : String) (s : ExamSession)
    → is_blank detail ≡ true
    → fail detail s ≡ raise Kind.exam_state_error "exam failure detail is required"
unfolding fail
fail_blank detail s blank = rw blank
