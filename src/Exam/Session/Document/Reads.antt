-- ===== src/Exam/Session/Document/Reads.antt =====
-- A valid session is read back from its own document.
use cks_simulator.Common.{
  ◌≡◌, refl, ap, String, Option, none, some, List, [], ◌∷◌, map, All, Fields, get_field, Json, ok,
}
use cks_simulator.Exam.Base.{
  ExamMode, practice, exam, ExamStatus, preparing, active, submitting, submitted, failed,
  ExamEndReason, manual, expired, Instant,
}
use cks_simulator.Exam.Session.{ExamTaskProgress, ExamSession, construct_progress}
use cks_simulator.Exam.Session.Valid.{IsValid, construct-IsValid}
use cks_simulator.Exam.Session.Progress.{IsProgress}
use cks_simulator.Exam.Session.Document.{
  mode_text, status_text, reason_text, items_of, progress_fields, optional, read_receipt, read_mode,
  read_status, read_reason_text, if_text, to_dict, read_instant, read_time, read_reason, read_texts,
  read_progress, read_tasks, read_session, as_state_error, from_dict,
}

read_mode_lem : (m : ExamMode) → read_mode (mode_text m) ≡ ok m
unfolding read_mode
read_mode_lem practice = refl
read_mode_lem exam = refl

read_status_lem : (s : ExamStatus) → read_status (status_text s) ≡ ok s
unfolding read_status
read_status_lem preparing = refl
read_status_lem active = refl
read_status_lem submitting = refl
read_status_lem submitted = refl
read_status_lem failed = refl

read_receipt_lem : (r : Option Fields) → read_receipt (optional Json.obj r) ≡ ok r
unfolding read_receipt
read_receipt_lem none = refl
read_receipt_lem (some fs) = refl

if_text_lem : (s : Option String) → if_text (optional Json.str s) ≡ s
unfolding if_text
if_text_lem none = refl
if_text_lem (some s) = refl

module _ (timestamp : Instant → String) (parse_timestamp : String → Option Instant)
    (shown : Json → String) (parses : (t : Instant) → parse_timestamp (timestamp t) ≡ some t) where
  read_reason_lem :
      (r : Option ExamEndReason)
      → read_reason timestamp parse_timestamp shown (optional (λ x. Json.str (reason_text x)) r)
        ≡ ok r
  unfolding read_reason read_reason_text
  read_reason_lem none = refl
  read_reason_lem (some manual) = refl
  read_reason_lem (some expired) = refl

  read_instant_lem :
      (t : Instant) → read_instant timestamp parse_timestamp shown (timestamp t) ≡ ok t
  unfolding read_instant
  read_instant_lem t = rw (parses t, read_instant) refl

  read_time_lem :
      (t : Option Instant)
      → read_time timestamp parse_timestamp shown
          (if_text (optional (λ x. Json.str (timestamp x)) t))
        ≡ ok t
  unfolding read_time if_text
  read_time_lem none = refl
  read_time_lem (some t) = rw (read_instant_lem t) refl

  read_texts_lem :
      (ts : List String)
      → read_texts timestamp parse_timestamp shown (items_of (map Json.str ts)) ≡ ts
  unfolding read_texts items_of
  read_texts_lem [] = refl
  read_texts_lem (t ∷ ts) = ap (λ xs. t ∷ xs) (read_texts_lem ts)

  read_progress_lem :
      (p : ExamTaskProgress)
      → IsProgress p
      → read_progress timestamp parse_timestamp shown (progress_fields p) ≡ ok p
  unfolding read_progress construct_progress get_field
  read_progress_lem p h = rw (h.0, h.1) refl

  read_tasks_lem :
      (ps : List ExamTaskProgress)
      → All IsProgress ps
      → read_tasks timestamp parse_timestamp shown
          (items_of (map (λ p. Json.obj (progress_fields p)) ps))
        ≡ ok ps
  unfolding read_tasks items_of
  read_tasks_lem [] h = refl
  read_tasks_lem (p ∷ ps) h = rw (read_progress_lem p h.0, read_tasks_lem ps h.1) refl

  -- With texts of instants that are read back, a valid session with valid tasks is read back from
  -- its own document as it was.
  pub from_dict-to_dict :
      (s : ExamSession)
      → IsValid s
      → All IsProgress s.tasks
      → from_dict timestamp parse_timestamp shown (to_dict timestamp parse_timestamp shown s) ≡ ok s
  unfolding from_dict to_dict read_session get_field
  from_dict-to_dict s valid tasks =
      rw
        (
          read_mode_lem s.mode,
          read_status_lem s.status,
          read_reason_lem s.end_reason,
          read_tasks_lem s.tasks tasks,
          read_instant_lem s.created_at,
          read_time_lem s.started_at,
          read_time_lem s.deadline_at,
          read_time_lem s.submitted_at,
          read_texts_lem s.claimed_task_ids,
          read_texts_lem s.prepared_task_ids,
          read_receipt_lem s.receipt,
          if_text_lem s.failure,
        )
        (ap as_state_error (construct-IsValid s valid))
