-- ===== src/Exam/Aggregate/Samples.antt =====
-- The manifest of the sample exam, and full grades for all of its tasks.
use cks_simulator.Common.{
  texts_eq, ℕ, ◌≡◌, refl, String, true, false, List, [], ◌∷◌, map, is_in, is_sha256, Fields,
  no_fields, ok,
}
use cks_simulator.Exam.Base.{expected_task_ids, task_weights}
use cks_simulator.Exam.Manifest.{ExamTask, ExamManifest, construct_manifest}
use cks_simulator.Exam.Session.Samples.{sample_digest, closing}
use cks_simulator.LiveGrading.{pass, LiveGrade}
use cks_simulator.Exam.Aggregate.{Grades, same_keys, aggregate_exam_grades}
use cks_simulator.Exam.Aggregate.Totality.{aggregate_total}

abbrev task_of : String → ℕ → ExamTask
task_of task_id weight = record {
  task_id = task_id;
  title = "A task";
  domain = "Cluster";
  host = "candidate";
  target_role = "candidate";
  workdir = "/opt/course/1";
  prompt = "Do it.";
  weight = weight;
}

abbrev tasks_of : List String → List ℕ → List ExamTask
tasks_of (i ∷ is) (w ∷ ws) = task_of i w ∷ tasks_of is ws
tasks_of _ _ = []

abbrev pub sample_manifest : ExamManifest
sample_manifest = record {
  tasks = tasks_of expected_task_ids task_weights;
  catalog_sha256 = sample_digest;
  manifest_sha256 = sample_digest;
}

abbrev pub full_grade : LiveGrade
full_grade = record {
  status = pass;
  score = 10000;
  earned_weight = 100;
  possible_weight = 100;
  criterion_denominator = 0;
  evidence_count = 0;
  criteria = [];
  lab_broken = false;
  tampered = false;
  signal_detail = "";
}

abbrev pub full_grades : Grades
full_grades = map (λ i. (i, full_grade)) expected_task_ids

abbrev pub sample_sha256 : Fields → String
sample_sha256 receipt = sample_digest

pub full_grades-same_keys : same_keys full_grades ≡ true
unfolding same_keys is_in
full_grades-same_keys = refl

-- The receipt that the full grades give.
pub full_receipt :
    (r : Fields) × (aggregate_exam_grades sample_sha256 closing sample_manifest full_grades ≡ ok r)
    × (no_fields r ≡ false)
full_receipt =
    aggregate_total sample_sha256 closing sample_manifest full_grades refl refl refl refl
      full_grades-same_keys

pub sample_manifest-construct : construct_manifest sample_manifest ≡ ok sample_manifest
unfolding construct_manifest is_sha256 texts_eq
sample_manifest-construct = refl
