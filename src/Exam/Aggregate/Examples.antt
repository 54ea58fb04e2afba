-- ===== src/Exam/Aggregate/Examples.antt =====
-- The theorems on a receipt at full grades for the sample exam.
use mathlib.Core.List.{Memᴰ}
use cks_simulator.Common.{
  ℕ, ◌≡◌, ◌≢◌, ◌≤◌, refl, true, false, some, All, Json, Fields, no_fields, get_field, ok, arith,
}
use cks_simulator.Exam.Base.{pass_score}
use cks_simulator.Exam.Manifest.{ExamTask}
use cks_simulator.Exam.Session.Samples.{closing}
use cks_simulator.LiveGrading.{lab_tampered, lab_broken}
use cks_simulator.Exam.Aggregate.{lookup_grade, aggregate_exam_grades}
use cks_simulator.Exam.Aggregate.Score.{WithinScale, IsFull, receipt_full, receipt_passed}
use cks_simulator.Exam.Aggregate.Totality.{aggregate_total}
use cks_simulator.Exam.Aggregate.Samples.{
  sample_manifest, full_grade, full_grades, sample_sha256, full_grades-same_keys, full_receipt,
  sample_manifest-construct,
}

abbrev receipt : Fields
receipt = full_receipt.0

aggregate_total_example :
    (r : Fields) × (aggregate_exam_grades sample_sha256 closing sample_manifest full_grades ≡ ok r)
    × (no_fields r ≡ false)
aggregate_total_example =
    aggregate_total sample_sha256 closing sample_manifest full_grades refl refl refl refl
      full_grades-same_keys

full_grades-WithinScale : All WithinScale full_grades
full_grades-WithinScale =
    let one : 10000 ≤ 10000 = omega arith in
    (
      one,
      (
        one,
        (
          one,
          (
            one,
            (
              one,
              (
                one,
                (one, (one, (one, (one, (one, (one, (one, (one, (one, (one, (one, tt))))))))))),
              ),
            ),
          ),
        ),
      ),
    )

full_grades-IsFull : All IsFull full_grades
full_grades-IsFull =
    let one : IsFull ("01", full_grade) = (refl, refl) in
    (
      one,
      (
        one,
        (
          one,
          (
            one,
            (
              one,
              (
                one,
                (one, (one, (one, (one, (one, (one, (one, (one, (one, (one, (one, tt))))))))))),
              ),
            ),
          ),
        ),
      ),
    )

abbrev first_task : ExamTask
first_task = record {
  task_id = "01";
  title = "A task";
  domain = "Cluster";
  host = "candidate";
  target_role = "candidate";
  workdir = "/opt/course/1";
  prompt = "Do it.";
  weight = 4;
}

first_grade : lookup_grade first_task.task_id full_grades ≡ some full_grade
unfolding lookup_grade
first_grade = refl

receipt_says_passed : get_field "passed" receipt ≡ some (Json.bool true)
receipt_says_passed =
    (receipt_full sample_sha256 closing sample_manifest full_grades receipt
      sample_manifest-construct full_grades-IsFull full_receipt.1).1

receipt_passed_example :
    (full_grade.status ≢ lab_tampered)
    × (full_grade.status ≢ lab_broken)
    × ((score : ℕ) × (get_field "score" receipt ≡ some (Json.hundredths score))
        × (pass_score ≤ score))
receipt_passed_example =
    receipt_passed sample_sha256 closing sample_manifest full_grades receipt first_task full_grade
      full_receipt.1 receipt_says_passed (Memᴰ.head refl) first_grade
