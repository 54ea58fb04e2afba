-- ===== src/Exam/View.antt =====
-- cks_simulator/exam.py, `ExamSession.to_candidate_dict`: the payload that the browser sees, as a
-- record with the dictionary's keys. `result`, `end_reason` and `failure` are `none` where the
-- dictionary has no such key.
pub mod Hides
mod Examples
use cks_simulator.Common.{
  ℕ, ◌-◌, ◌/◌, String, Bool, true, false, not, ◌&&◌, ◌||◌, Option, none, some, List, map,
  if◌then◌else◌, str_eq, Fields, end, Kind, Result, ok, raise_if, raise, ◌>>=◌, ◌>>◌,
}
use cks_simulator.Exam.Base.{
  ExamMode, ExamStatus, ExamEndReason, submitted, failed, Instant, is_active, is_failed,
  is_practice,
}
use cks_simulator.Exam.Manifest.{ExamTask, ExamManifest}
use cks_simulator.Exam.Session.{ExamTaskProgress, ExamSession, is_submitted}

-- One entry of `progress_payload`.
pub record ProgressEntry : Type 0 where
  pub id : String
  pub visited : Bool
  pub flagged : Bool
  pub completed : Bool

progress_entry : ExamTaskProgress → ProgressEntry
progress_entry item = record {
  id = item.task_id;
  visited = item.visited;
  flagged = item.flagged;
  completed = item.completed;
}

progress_payload : ExamSession → List ProgressEntry
unfolding progress_entry
progress_payload s = map progress_entry s.tasks

pub record CandidateView : Type 0 where
  pub schema_version : ℕ
  pub session_id : String
  pub mode : ExamMode
  pub status : ExamStatus
  pub duration_seconds : ℕ
  pub started_at : Option Instant
  pub deadline_at : Option Instant
  pub server_now : Instant
  pub remaining_seconds : ℕ
  pub selected_task_id : String
  pub tasks : List ExamTask
  pub progress : List ProgressEntry
  pub can_check : Bool
  pub can_submit : Bool
  pub result : Option Fields
  pub end_reason : Option ExamEndReason
  pub failure : Option String

-- The whole seconds to the deadline, 0 if it has passed: `-` stops at 0, as `max(0, …)` does.
remaining : ExamStatus → Option Instant → Instant → ℕ
remaining status none observed = 0
remaining status (some deadline) observed =
    if is_active status then (deadline - observed) / 1000000 else 0

abbrev or_empty : Option Fields → Fields
or_empty none = end
or_empty (some receipt) = receipt

-- The payload of a session of this manifest.
pub view_of : ExamManifest → Instant → ExamSession → CandidateView
unfolding progress_payload remaining
view_of manifest observed s = record {
  schema_version = s.schema_version;
  session_id = s.session_id;
  mode = s.mode;
  status = s.status;
  duration_seconds = s.duration_seconds;
  started_at = s.started_at;
  deadline_at = s.deadline_at;
  server_now = observed;
  remaining_seconds = remaining s.status s.deadline_at observed;
  selected_task_id = s.selected_task_id;
  tasks = manifest.tasks;
  progress = progress_payload s;
  can_check = is_practice s.mode && is_active s.status;
  can_submit = is_active s.status;
  result = if is_submitted s.status then some (or_empty s.receipt) else none;
  end_reason = if is_submitted s.status then s.end_reason else none;
  failure = if is_failed s.status then s.failure else none;
}

pub to_candidate_dict : ExamManifest → Instant → ExamSession → Result CandidateView
unfolding view_of
to_candidate_dict manifest observed s = do
  raise_if
      (not (str_eq manifest.catalog_sha256 s.catalog_sha256)
        || not (str_eq manifest.manifest_sha256 s.manifest_sha256))
      Kind.exam_state_error "exam manifest no longer matches the frozen session"
  ok (view_of manifest observed s)
