-- ===== src/Exam/Session/Samples.antt =====
-- Sessions for the examples: one lab, one exam, before the start, during it and after it.
use cks_simulator.Common.{
  ◌≡◌, refl, String, true, false, none, some, [], map, is_in, is_identifier, is_canonical_uuid, All,
  Fields, field, end, Json, arith,
}
use cks_simulator.Exam.Base.{
  expected_task_ids, exam_schema_version, practice, preparing, active, manual,
}
use cks_simulator.Exam.Session.{ExamTaskProgress, ExamSession}
use cks_simulator.Exam.Session.Valid.{IsValid}
use cks_simulator.Exam.Session.Progress.{IsProgress}
use cks_simulator.Exam.Session.Preparation.{CanClaim, with_claim, with_claim-IsValid}
use cks_simulator.Exam.Session.Submission.{
  with_submission, with_receipt, begin_submit_active, complete_submit_submitting,
}

abbrev pub sample_uuid : String
sample_uuid = "01234567-89ab-4cde-8f01-23456789abcd"

abbrev pub sample_digest : String
sample_digest = "0123456789abcdef0123456789abcdef0123456789abcdef0123456789abcdef"

abbrev sample_progress : String → ExamTaskProgress
sample_progress task_id = record {
  task_id = task_id;
  attempt_id = sample_uuid;
  visited = false;
  flagged = false;
  completed = false;
}

abbrev pub fresh : ExamSession
fresh = record {
  lab_name = "lab";
  lab_id = sample_uuid;
  session_id = sample_uuid;
  mode = practice;
  status = preparing;
  catalog_sha256 = sample_digest;
  manifest_sha256 = sample_digest;
  duration_seconds = 7200;
  created_at = 5;
  started_at = none;
  deadline_at = none;
  submitted_at = none;
  end_reason = none;
  selected_task_id = "01";
  tasks = map sample_progress expected_task_ids;
  claimed_task_ids = [];
  prepared_task_ids = [];
  receipt = none;
  failure = none;
  revision = 0;
  schema_version = exam_schema_version;
}

-- The claim of task 01 is open.
abbrev pub claiming : ExamSession
claiming = with_claim "01" fresh

abbrev pub running : ExamSession
running = record fresh {
  status = active;
  started_at = some 1000000;
  deadline_at = some 7201000000;
  claimed_task_ids = expected_task_ids;
  prepared_task_ids = expected_task_ids;
  revision = 35;
}

abbrev pub closing : ExamSession
closing = with_submission manual 1500000 running

abbrev sample_receipt : Fields
sample_receipt = field "score" (Json.hundredths 10000) end

abbrev pub closed : ExamSession
closed = with_receipt sample_receipt 2000000 closing

pub fresh-IsValid : IsValid fresh
unfolding is_identifier is_canonical_uuid is_in
fresh-IsValid = record {
  lab_name_safe = refl;
  lab_id_canonical = refl;
  session_id_canonical = refl;
  schema_known = refl;
  duration_low = omega arith;
  duration_high = omega arith;
  tasks_complete = refl;
  claims_prefix = refl;
  prepared_prefix = refl;
  prepared_claimed = omega arith;
  prepared_first = refl;
  selected_known = refl;
  catalog_digest = refl;
  manifest_digest = refl;
  timer = tt;
  receipt_fits = refl;
  failure_fits = tt;
}

pub fresh-CanClaim : CanClaim "01" fresh
fresh-CanClaim = record { still_preparing = refl; next = refl; settled = refl }

pub claiming-IsValid : IsValid claiming
claiming-IsValid = with_claim-IsValid "01" fresh fresh-IsValid fresh-CanClaim

pub running-IsValid : IsValid running
unfolding is_identifier is_canonical_uuid is_in
running-IsValid = record {
  lab_name_safe = refl;
  lab_id_canonical = refl;
  session_id_canonical = refl;
  schema_known = refl;
  duration_low = omega arith;
  duration_high = omega arith;
  tasks_complete = refl;
  claims_prefix = refl;
  prepared_prefix = refl;
  prepared_claimed = omega arith;
  prepared_first = refl;
  selected_known = refl;
  catalog_digest = refl;
  manifest_digest = refl;
  timer = refl;
  receipt_fits = refl;
  failure_fits = tt;
}

closing-IsValid : IsValid closing
closing-IsValid = (begin_submit_active running running-IsValid manual 1500000 refl).1

pub closed-IsValid : IsValid closed
closed-IsValid =
    (complete_submit_submitting closing closing-IsValid manual sample_receipt 2000000 refl refl
      refl).1

pub sample_tasks-IsProgress : All IsProgress running.tasks
unfolding is_canonical_uuid is_in
sample_tasks-IsProgress =
    let one : (true ≡ true) × (true ≡ true) = (refl, refl) in
    (
      one,
      (
        one,
        (
          one,
          (
            one,
            (
              one,
              (
                one,
                (one, (one, (one, (one, (one, (one, (one, (one, (one, (one, (one, tt))))))))))),
              ),
            ),
          ),
        ),
      ),
    )
