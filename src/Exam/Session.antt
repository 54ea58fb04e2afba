-- ===== src/Exam/Session.antt =====
-- cks_simulator/exam.py, `ExamTaskProgress` and `ExamSession`: the record, its `__post_init__` and
-- the operations. `replace` runs `__post_init__` again, so each operation ends in `construct`.
pub mod Valid
pub mod Steps
pub mod Progress
pub mod Preparation
pub mod Lifecycle
pub mod Submission
pub mod Samples
pub mod Document
mod Examples
use cks_simulator.Common.{
  ℕ, ◌+◌, String, Bool, true, false, not, ◌&&◌, ◌||◌, Option, none, some, List, [], ◌∷◌, ◌++◌, map,
  leb, ltb, ◌==◌, if◌then◌else◌, is_none, length, get_elem?, take, get_last?, is_empty, is_in,
  texts_eq, str_eq, text_length, take_text, is_identifier, is_canonical_uuid, is_blank, Fields,
  no_fields, Kind, Checked, Result, ok, raise, raise_if, ◌>>=◌, ◌>>◌,
}
use cks_simulator.Exam.Base.{
  exam_schema_version, min_exam_duration_seconds, max_exam_duration_seconds, expected_task_ids,
  ExamMode, ExamStatus, ExamEndReason, preparing, active, submitting, submitted, failed, manual,
  expired, Instant, timedelta_seconds, is_preparing, is_active, is_submitting, is_failed,
}
use cks_simulator.Exam.Manifest.{ExamManifest}

pub record ExamTaskProgress : Type 0 where
  pub task_id : String
  pub attempt_id : String
  pub visited : Bool
  pub flagged : Bool
  pub completed : Bool

construct_progress : ExamTaskProgress → Result ExamTaskProgress
construct_progress p = do
  raise_if (not (is_in p.task_id expected_task_ids)) Kind.exam_state_error
      "exam progress task ID is invalid"
  raise_if (not (is_canonical_uuid p.attempt_id)) Kind.value_error
      "exam task attempt ID must be a canonical UUID"
  ok p

pub record ExamSession : Type 0 where
  pub lab_name : String
  pub lab_id : String
  pub session_id : String
  pub mode : ExamMode
  pub status : ExamStatus
  pub catalog_sha256 : String
  pub manifest_sha256 : String
  pub duration_seconds : ℕ
  pub created_at : Instant
  pub started_at : Option Instant
  pub deadline_at : Option Instant
  pub submitted_at : Option Instant
  pub end_reason : Option ExamEndReason
  pub selected_task_id : String
  pub tasks : List ExamTaskProgress
  pub claimed_task_ids : List String
  pub prepared_task_ids : List String
  pub receipt : Option Fields
  pub failure : Option String
  pub revision : ℕ
  pub schema_version : ℕ

check_identity : String → String → String → Checked
check_identity lab_name lab_id session_id = do
  raise_if (not (is_identifier lab_name)) Kind.value_error "exam lab name is no identifier"
  raise_if (not (is_canonical_uuid lab_id)) Kind.value_error "exam lab ID must be a canonical UUID"
  raise_if (not (is_canonical_uuid session_id)) Kind.value_error
      "exam session ID must be a canonical UUID"

check_numbers : ℕ → ℕ → Checked
check_numbers schema_version duration = do
  raise_if (not (schema_version == exam_schema_version)) Kind.exam_state_error
      "unsupported exam state schema"
  raise_if (not (leb min_exam_duration_seconds duration && leb duration max_exam_duration_seconds))
      Kind.exam_state_error "exam duration is outside the supported range"

abbrev pub task_ids : List ExamTaskProgress → List String
task_ids = map (λ p. p.task_id)

check_tasks : List ExamTaskProgress → List String → List String → String → Checked
check_tasks tasks claimed prepared selected = do
  raise_if (not (texts_eq (task_ids tasks) expected_task_ids)) Kind.exam_state_error
      "exam progress must contain tasks 01 through 17"
  raise_if (not (texts_eq claimed (take (length claimed) expected_task_ids))) Kind.exam_state_error
      "exam claimed task IDs must be a canonical prefix"
  raise_if (not (texts_eq prepared (take (length prepared) expected_task_ids)))
      Kind.exam_state_error "exam prepared task IDs must be a canonical prefix"
  raise_if (ltb (length claimed) (length prepared)) Kind.exam_state_error
      "prepared exam tasks must have write-ahead claims"
  raise_if (not (texts_eq prepared (take (length prepared) claimed))) Kind.exam_state_error
      "prepared exam tasks do not match their claims"
  raise_if (not (is_in selected expected_task_ids)) Kind.exam_state_error
      "selected exam task is invalid"

check_digests : String → String → Checked
check_digests catalog manifest = do
  raise_if (not (text_length catalog == 64)) Kind.exam_state_error "exam manifest digest is invalid"
  raise_if (not (text_length manifest == 64)) Kind.exam_state_error
      "exam manifest digest is invalid"

abbrev is_unstarted : ExamStatus → Option Instant → Option Instant → Bool
is_unstarted status started deadline =
    is_preparing status || (is_failed status && is_none started && is_none deadline)

-- The `else` branch: a started exam and its timer.
check_started : Option Instant → Option Instant → ℕ → Checked
check_started none deadline duration =
    raise Kind.exam_state_error "started exam is missing its authoritative timer"
check_started (some start) none duration =
    raise Kind.exam_state_error "started exam is missing its authoritative timer"
check_started (some start) (some deadline) duration =
    raise_if (not (deadline == start + timedelta_seconds duration)) Kind.exam_state_error
      "exam deadline does not match its immutable duration"

check_timer :
    ExamStatus
    → Option Instant
    → Option Instant
    → Option Instant
    → Option ExamEndReason
    → Option Fields
    → ℕ
    → Checked
unfolding check_started
check_timer status started deadline submitted_at end_reason receipt duration =
    if is_unstarted status started deadline
    then raise_if
        (not (
          is_none started
          && is_none deadline
          && is_none submitted_at
          && is_none end_reason
          && is_none receipt))
        Kind.exam_state_error "unstarted exam contains terminal or timer state"
    else check_started started deadline duration

abbrev pub is_submitted : ExamStatus → Bool
is_submitted submitted = true
is_submitted _ = false

check_receipt : ExamStatus → Option Instant → Option ExamEndReason → Option Fields → Checked
check_receipt status submitted_at end_reason receipt =
    if is_submitted status
    then raise_if (is_none submitted_at || is_none end_reason || is_none receipt)
        Kind.exam_state_error "submitted exam is missing its final receipt"
    else raise_if (not (is_none receipt)) Kind.exam_state_error
        "only a submitted exam may contain a receipt"

check_failure : Option String → Checked
check_failure none = ok tt
check_failure (some detail) =
    raise_if (not (leb (text_length detail) 2048)) Kind.exam_state_error
      "exam failure detail is invalid"

-- `ExamSession.__post_init__`; the tests of `isinstance` hold by the types of the fields.
unfoldable pub construct : ExamSession → Result ExamSession
unfolding check_identity check_numbers check_tasks check_digests check_timer check_receipt
    check_failure
construct s = do
  check_identity s.lab_name s.lab_id s.session_id
  check_numbers s.schema_version s.duration_seconds
  check_tasks s.tasks s.claimed_task_ids s.prepared_task_ids s.selected_task_id
  check_digests s.catalog_sha256 s.manifest_sha256
  check_timer s.status s.started_at s.deadline_at s.submitted_at s.end_reason s.receipt
      s.duration_seconds
  check_receipt s.status s.submitted_at s.end_reason s.receipt
  check_failure s.failure
  ok s

construct_all : List ExamTaskProgress → Result (List ExamTaskProgress)
unfolding construct_progress
construct_all [] = ok []
construct_all (p ∷ ps) = do q ← construct_progress p; qs ← construct_all ps; ok (q ∷ qs)

abbrev new_progress : (String → String) → String → ExamTaskProgress
new_progress attempt_id task_id = record {
  task_id = task_id;
  attempt_id = attempt_id task_id;
  visited = false;
  flagged = false;
  completed = false;
}

-- `ExamSession.create`. The identifiers that `uuid.uuid4` draws are arguments.
unfoldable pub create :
    String
    → String
    → ExamMode
    → ExamManifest
    → ℕ
    → Instant
    → String
    → (String → String)
    → Result ExamSession
unfolding construct_all construct
create lab_name lab_id mode manifest duration now session_id attempt_id = do
  tasks ← construct_all (map (new_progress attempt_id) expected_task_ids)
  construct (record {
    lab_name = lab_name;
    lab_id = lab_id;
    session_id = session_id;
    mode = mode;
    status = preparing;
    catalog_sha256 = manifest.catalog_sha256;
    manifest_sha256 = manifest.manifest_sha256;
    duration_seconds = duration;
    created_at = now;
    started_at = none;
    deadline_at = none;
    submitted_at = none;
    end_reason = none;
    selected_task_id = "01";
    tasks = tasks;
    claimed_task_ids = [];
    prepared_task_ids = [];
    receipt = none;
    failure = none;
    revision = 0;
    schema_version = exam_schema_version;
  })

-- `next_index >= len(EXPECTED_TASK_IDS) or task_id != EXPECTED_TASK_IDS[next_index]`
is_next_task : String → ℕ → Bool
is_next_task task_id next_index = elim (get_elem? expected_task_ids next_index) [
  | none ↦ false
  | some e ↦ str_eq task_id e
]

unfoldable pub claim_preparation : String → ExamSession → Result ExamSession
unfolding is_next_task
claim_preparation task_id s = do
  raise_if (not (is_preparing s.status)) Kind.exam_conflict_error
      "task preparation can be claimed only while preparing"
  raise_if (not (is_next_task task_id (length s.claimed_task_ids))) Kind.exam_conflict_error
      "exam task preparation claims must be ordered and unique"
  raise_if (not (length s.claimed_task_ids == length s.prepared_task_ids)) Kind.exam_conflict_error
      "the previous exam task claim is not confirmed"
  construct (record s {
    claimed_task_ids = s.claimed_task_ids ++ task_id ∷ [];
    revision = s.revision + 1;
  })

-- `self.claimed_task_ids and self.claimed_task_ids[-1] == task_id`
is_last_claim : String → List String → Bool
is_last_claim task_id claimed = elim (get_last? claimed) [
  | none ↦ false
  | some last ↦ str_eq last task_id
]

unfoldable pub confirm_preparation : String → ExamSession → Result ExamSession
unfolding is_last_claim
confirm_preparation task_id s = do
  raise_if (not (is_preparing s.status)) Kind.exam_conflict_error
      "task preparation can be confirmed only while preparing"
  raise_if (not (is_last_claim task_id s.claimed_task_ids)) Kind.exam_conflict_error
      "exam task has no matching write-ahead claim"
  raise_if (not (length s.claimed_task_ids == length s.prepared_task_ids + 1))
      Kind.exam_conflict_error "exam task preparation is already confirmed"
  construct (record s {
    prepared_task_ids = s.prepared_task_ids ++ task_id ∷ [];
    revision = s.revision + 1;
  })

unfoldable pub activate : Instant → ExamSession → Result ExamSession
activate now s = do
  raise_if (not (is_preparing s.status)) Kind.exam_conflict_error
      "only a preparing exam can be activated"
  construct (record s {
    status = active;
    started_at = some now;
    deadline_at = some (now + timedelta_seconds s.duration_seconds);
    revision = s.revision + 1;
  })

abbrev is_past : Option Instant → Instant → Bool
is_past none now = false
is_past (some deadline) now = leb deadline now

abbrev pub is_expired : Instant → ExamSession → Bool
is_expired now s = is_past s.deadline_at now

abbrev pub given : Option Bool → Bool → Bool
given none old = old
given (some value) old = value

-- The loop of `update_progress` over the tasks.
pub update_tasks :
    String
    → Option Bool
    → Option Bool
    → Option Bool
    → List ExamTaskProgress
    → Result (List ExamTaskProgress)
unfolding construct_progress
update_tasks task_id visited flagged completed [] = ok []
update_tasks task_id visited flagged completed (p ∷ ps) = do
  q ←
      if str_eq p.task_id task_id
      then construct_progress (record p {
        visited = given visited p.visited;
        flagged = given flagged p.flagged;
        completed = given completed p.completed;
      })
      else ok p
  qs ← update_tasks task_id visited flagged completed ps
  ok (q ∷ qs)

pub update_progress :
    String
    → Bool
    → Option Bool
    → Option Bool
    → Option Bool
    → Instant
    → ExamSession
    → Result ExamSession
update_progress task_id selected visited flagged completed now s = do
  raise_if (not (is_active s.status)) Kind.exam_conflict_error
      "exam progress can change only while active"
  raise_if (is_expired now s) Kind.exam_conflict_error "exam deadline has elapsed"
  raise_if (not (is_in task_id expected_task_ids)) Kind.exam_state_error "exam task ID is invalid"
  changed ← update_tasks task_id visited flagged completed s.tasks
  construct (record s {
    selected_task_id = if selected then task_id else s.selected_task_id;
    tasks = changed;
    revision = s.revision + 1;
  })

-- A manual submission after the deadline is recorded as expired.
abbrev pub observed_reason : ExamEndReason → Bool → ExamEndReason
observed_reason manual true = expired
observed_reason reason _ = reason

submit_from : ExamStatus → ExamEndReason → Instant → ExamSession → Result ExamSession
submit_from submitting reason now s = ok s
submit_from submitted reason now s = ok s
submit_from active reason now s = construct (record s {
  status = submitting;
  end_reason = some (observed_reason reason (is_expired now s));
  revision = s.revision + 1;
})
submit_from _ reason now s = raise Kind.exam_conflict_error "only an active exam can be submitted"

pub begin_submit : ExamEndReason → Instant → ExamSession → Result ExamSession
unfolding submit_from
begin_submit reason now s = submit_from s.status reason now s

pub complete_submit : Fields → Instant → ExamSession → Result ExamSession
complete_submit receipt now s = do
  raise_if (not (is_submitting s.status) || is_none s.end_reason) Kind.exam_conflict_error
      "exam is not awaiting a final receipt"
  raise_if (no_fields receipt) Kind.exam_state_error "final exam receipt is invalid"
  construct (record s {
    status = submitted;
    submitted_at = some now;
    receipt = some receipt;
    revision = s.revision + 1;
  })

unfoldable pub fail : String → ExamSession → Result ExamSession
fail detail s = do
  raise_if (is_blank detail) Kind.exam_state_error "exam failure detail is required"
  construct (record s {
    status = failed;
    failure = some (take_text 2048 detail);
    revision = s.revision + 1;
  })
