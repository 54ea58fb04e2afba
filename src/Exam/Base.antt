-- ===== src/Exam/Base.antt =====
-- cks_simulator/exam.py: the constants and the enumerations of an exam.
use cks_simulator.Common.{ℕ, ◌*◌, String, List, [], ◌∷◌, Bool, true, false}

abbrev pub exam_schema_version : ℕ
exam_schema_version = 1

abbrev pub min_exam_duration_seconds : ℕ
min_exam_duration_seconds = 60

abbrev pub max_exam_duration_seconds : ℕ
max_exam_duration_seconds = 6 * 60 * 60

-- In hundredths of a point, as every score here.
abbrev pub pass_score : ℕ
pass_score = 6700

abbrev pub expected_task_ids : List String
expected_task_ids =
    "01" ∷ "02" ∷ "03" ∷ "04" ∷ "05" ∷ "06" ∷ "07" ∷ "08" ∷ "09" ∷ "10" ∷ "11" ∷ "12" ∷ "13" ∷ "14"
    ∷ "15" ∷ "16" ∷ "17" ∷ []

abbrev pub task_weights : List ℕ
task_weights = 4 ∷ 4 ∷ 5 ∷ 5 ∷ 5 ∷ 5 ∷ 5 ∷ 5 ∷ 6 ∷ 6 ∷ 7 ∷ 7 ∷ 7 ∷ 7 ∷ 7 ∷ 7 ∷ 8 ∷ []

pub data ExamMode : Type 0 where
  practice exam : ExamMode

pub data ExamStatus : Type 0 where
  preparing active submitting submitted failed : ExamStatus

pub data ExamEndReason : Type 0 where
  manual expired : ExamEndReason

-- A UTC instant, in microseconds from a fixed origin: what `_timestamp` writes as text and
-- `_parse_timestamp` reads back.
abbrev pub Instant : Type 0
Instant = ℕ

-- `timedelta(seconds=seconds)`
abbrev pub timedelta_seconds : ℕ → ℕ
timedelta_seconds seconds = seconds * 1000000

-- `status is ExamStatus.PREPARING`, and so for the other statuses.
abbrev pub is_preparing : ExamStatus → Bool
is_preparing ExamStatus.preparing = true
is_preparing _ = false

abbrev pub is_active : ExamStatus → Bool
is_active ExamStatus.active = true
is_active _ = false

abbrev pub is_submitting : ExamStatus → Bool
is_submitting ExamStatus.submitting = true
is_submitting _ = false

abbrev pub is_failed : ExamStatus → Bool
is_failed ExamStatus.failed = true
is_failed _ = false

abbrev pub is_practice : ExamMode → Bool
is_practice practice = true
is_practice exam = false
