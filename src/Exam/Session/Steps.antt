-- ===== src/Exam/Session/Steps.antt =====
-- One operation on a session, whichever it is, and what every operation keeps.
use cks_simulator.Common.{
  suc, ◌+◌, ◌≡◌, ◌≢◌, refl, ◌⊎◌, inl, inr, String, Bool, true, false, Option, some, List, [], ◌∷◌,
  ◌++◌, if◌then◌else◌, is_in, take_text, Fields, Result, ok, arith,
}
use cks_simulator.Exam.Base.{
  expected_task_ids, ExamStatus, ExamEndReason, preparing, active, submitting, submitted, failed,
  Instant, timedelta_seconds,
}
use cks_simulator.Exam.Session.{
  ExamTaskProgress, ExamSession, construct, claim_preparation, confirm_preparation, activate,
  update_progress, update_tasks, is_expired, observed_reason, begin_submit, complete_submit, fail,
}
use cks_simulator.Exam.Session.Valid.{IsValid, construct_iff}

pub data Op : Type 0 where
  claim : String → Op
  confirm : String → Op
  activate_at : Instant → Op
  progress : String → Bool → Option Bool → Option Bool → Option Bool → Instant → Op
  submit_at : ExamEndReason → Instant → Op
  complete : Fields → Instant → Op
  give_up : String → Op

unfoldable pub apply : Op → ExamSession → Result ExamSession
apply (claim t) s = claim_preparation t s
apply (confirm t) s = confirm_preparation t s
apply (activate_at now) s = activate now s
apply (progress t selected visited flagged completed now) s =
    update_progress t selected visited flagged completed now s
apply (submit_at reason now) s = begin_submit reason now s
apply (complete receipt now) s = complete_submit receipt now s
apply (give_up detail) s = fail detail s

-- The edges of the life cycle. A submitted exam is left by none.
infix 40 ◌⟶◌
pub data ◌⟶◌ (a b : ExamStatus) : Type 0 where
  stay : a ≡ b → a ⟶ b
  start : a ≡ preparing → b ≡ active → a ⟶ b
  submit : a ≡ active → b ≡ submitting → a ⟶ b
  finish : a ≡ submitting → b ≡ submitted → a ⟶ b
  abort : a ≢ submitted → b ≡ failed → a ⟶ b

-- What no operation changes.
pub record SameExam (s t : ExamSession) : Type 0 where
  pub lab_name_kept : t.lab_name ≡ s.lab_name
  pub lab_id_kept : t.lab_id ≡ s.lab_id
  pub session_id_kept : t.session_id ≡ s.session_id
  pub mode_kept : t.mode ≡ s.mode
  pub catalog_kept : t.catalog_sha256 ≡ s.catalog_sha256
  pub manifest_kept : t.manifest_sha256 ≡ s.manifest_sha256
  pub duration_kept : t.duration_seconds ≡ s.duration_seconds
  pub created_kept : t.created_at ≡ s.created_at

-- The step of an operation: a valid session of the same exam, one revision on, along an edge of the
-- life cycle; or the session itself.
pub record Advances (s t : ExamSession) : Type 0 where
  pub valid : IsValid t
  pub same : SameExam s t
  pub one_revision : t.revision ≡ suc s.revision
  pub edge : s.status ⟶ t.status

from_construct :
    (s u t : ExamSession)
    → SameExam s u
    → u.revision ≡ suc s.revision
    → s.status ⟶ u.status
    → construct u ≡ ok t
    → Advances s t
from_construct s u t same rev edge h =
    let (eq, valid) = (construct_iff u t).0 h in
    rw eq (record { valid = valid; same = same; one_revision = rev; edge = edge })

-- What the success of each operation shows of the session before.
module _ (s t : ExamSession) where
  pub claim_inv :
      (x : String)
      → claim_preparation x s ≡ ok t
      → construct
          (record s { claimed_task_ids = s.claimed_task_ids ++ x ∷ []; revision = s.revision + 1 })
        ≡ ok t
  unfolding claim_preparation
  claim_inv x h = ground arith

  pub confirm_inv :
      (x : String)
      → confirm_preparation x s ≡ ok t
      → construct (record s {
        prepared_task_ids = s.prepared_task_ids ++ x ∷ [];
        revision = s.revision + 1;
      })
        ≡ ok t
  unfolding confirm_preparation
  confirm_inv x h = ground arith

  pub activate_inv :
      (now : Instant)
      → activate now s ≡ ok t
      → (s.status ≡ preparing)
        × (construct (record s {
          status = active;
          started_at = some now;
          deadline_at = some (now + timedelta_seconds s.duration_seconds);
          revision = s.revision + 1;
        })
            ≡ ok t)
  unfolding activate
  activate_inv now h = ground arith

  pub update_progress_inv :
      (x : String) (selected : Bool) (v f c : Option Bool) (now : Instant)
      → update_progress x selected v f c now s ≡ ok t
      → (s.status ≡ active)
        × (is_expired now s ≡ false)
        × (is_in x expected_task_ids ≡ true)
        × ((changed : List ExamTaskProgress) × (update_tasks x v f c s.tasks ≡ ok changed)
            × (construct (record s {
              selected_task_id = if selected then x else s.selected_task_id;
              tasks = changed;
              revision = s.revision + 1;
            })
                ≡ ok t))
  unfolding update_progress
  update_progress_inv x selected v f c now h = ground arith

  pub begin_submit_inv :
      (reason : ExamEndReason) (now : Instant)
      → begin_submit reason now s ≡ ok t
      → (t ≡ s)
        ⊎ ((s.status ≡ active)
            × (construct (record s {
              status = submitting;
              end_reason = some (observed_reason reason (is_expired now s));
              revision = s.revision + 1;
            })
                ≡ ok t))
  unfolding begin_submit
  begin_submit_inv reason now h = ground arith

  pub complete_submit_inv :
      (receipt : Fields) (now : Instant)
      → complete_submit receipt now s ≡ ok t
      → (s.status ≡ submitting)
        × (construct (record s {
          status = submitted;
          submitted_at = some now;
          receipt = some receipt;
          revision = s.revision + 1;
        })
            ≡ ok t)
  unfolding complete_submit
  complete_submit_inv receipt now h = ground arith

  pub fail_inv :
      (detail : String)
      → fail detail s ≡ ok t
      → construct (record s {
        status = failed;
        failure = some (take_text 2048 detail);
        revision = s.revision + 1;
      })
        ≡ ok t
  unfolding fail
  fail_inv detail h = ground arith

-- A failure cannot be recorded over a receipt.
fail_keeps_submitted :
    (detail : String) (s t : ExamSession) → IsValid s → fail detail s ≡ ok t → s.status ≢ submitted
fail_keeps_submitted detail s t v h e =
    let (eq, valid) = (construct_iff _ t).0 (fail_inv s t detail h) in
    ground (arith, v.receipt_fits, valid.receipt_fits)

-- Every operation that succeeds on a valid session gives a valid session of the same exam, one
-- revision on and along an edge of the life cycle, or gives the session back as it was.
pub apply-Advances :
    (op : Op) (s t : ExamSession) → IsValid s → apply op s ≡ ok t → (t ≡ s) ⊎ Advances s t
unfolding apply
apply-Advances (claim x) s t v h =
    inr (from_construct s _ t (ground arith) (omega arith) (stay refl) (claim_inv s t x h))
apply-Advances (confirm x) s t v h =
    inr (from_construct s _ t (ground arith) (omega arith) (stay refl) (confirm_inv s t x h))
apply-Advances (activate_at now) s t v h =
    let (e, c) = activate_inv s t now h in
    inr (from_construct s _ t (ground arith) (omega arith) (start e refl) c)
apply-Advances (progress x selected vi fl co now) s t v h =
    let (e, live, known, changes) = update_progress_inv s t x selected vi fl co now h in
    let (changed, d, c) = changes in
    inr (from_construct s _ t (ground arith) (omega arith) (stay refl) c)
apply-Advances (submit_at reason now) s t v h = elim (begin_submit_inv s t reason now h) [
  | inl same ↦ inl same
  | inr (e, c) ↦ inr (from_construct s _ t (ground arith) (omega arith) (submit e refl) c)
]
apply-Advances (complete receipt now) s t v h =
    let (e, c) = complete_submit_inv s t receipt now h in
    inr (from_construct s _ t (ground arith) (omega arith) (finish e refl) c)
apply-Advances (give_up detail) s t v h = inr (
    from_construct s _ t (ground arith) (omega arith)
      (abort (fail_keeps_submitted detail s t v h) refl) (fail_inv s t detail h))
