-- ===== src/Exam/Aggregate.antt =====
-- cks_simulator/exam.py, `aggregate_exam_grades`: one receipt from the grades of all the tasks.
-- Scores are in hundredths of a point; a weighted score before rounding is in their hundredths.
-- `sha256` stands for `_sha256(_canonical_json(receipt))`.
pub mod Score
pub mod Totality
pub mod Samples
mod Examples
use cks_simulator.Common.{
  ℕ, ◌+◌, ◌*◌, String, Bool, true, false, not, ◌&&◌, ◌||◌, Option, none, some, List, [], ◌∷◌, map,
  leb, if◌then◌else◌, str_eq, is_in, round_div, Json, Items, nil, cons, Fields, end, field, Kind,
  Result, ok, err, raise, raise_if, ◌>>=◌, ◌>>◌,
}
use cks_simulator.Exam.Base.{
  expected_task_ids, pass_score, ExamMode, practice, exam, ExamEndReason, manual, expired, Instant,
  is_submitting,
}
use cks_simulator.Exam.Manifest.{ExamTask, ExamManifest}
use cks_simulator.Exam.Session.{ExamSession}
use cks_simulator.LiveGrading.{
  GradeStatus, pass, partial, fail, lab_tampered, lab_broken, TrustSource, operator, cross_source,
  guest, CriterionResult, LiveGrade,
}

-- A dictionary from task to grade.
abbrev pub Grades : Type 0
Grades = List (String × LiveGrade)

pub lookup_grade : String → Grades → Option LiveGrade
lookup_grade k [] = none
lookup_grade k ((j, g) ∷ gs) = if str_eq k j then some g else lookup_grade k gs

is_key : String → Grades → Bool
is_key k [] = false
is_key k ((j, g) ∷ gs) = str_eq k j || is_key k gs

all_keys : List String → Grades → Bool
unfolding is_key
all_keys [] gs = true
all_keys (k ∷ ks) gs = is_key k gs && all_keys ks gs

known_keys : Grades → List String → Bool
known_keys [] ks = true
known_keys ((j, g) ∷ gs) ks = is_in j ks && known_keys gs ks

-- `set(grades) == set(EXPECTED_TASK_IDS)`
pub same_keys : Grades → Bool
unfolding all_keys known_keys
same_keys gs = all_keys expected_task_ids gs && known_keys gs expected_task_ids

abbrev status_value : GradeStatus → String
status_value pass = "PASS"
status_value partial = "PARTIAL"
status_value fail = "FAIL"
status_value lab_tampered = "LAB_TAMPERED"
status_value lab_broken = "LAB_BROKEN"

abbrev source_value : Option TrustSource → Json
source_value none = Json.null
source_value (some operator) = Json.str "operator"
source_value (some cross_source) = Json.str "cross-source"
source_value (some guest) = Json.str "guest"

criterion_json : CriterionResult → Json
criterion_json c = Json.obj (
    field "criterion_id" (Json.str c.criterion_id) (
      field "label" (Json.str c.label) (
        field "weight" (Json.hundredths c.weight) (
          field "passed" (Json.bool c.passed) (
            field "trust_source" (source_value c.trust_source) (
              field "detail" (Json.str c.detail)
                (field "evidence_present" (Json.bool c.evidence_present) end)))))))

criteria_json : List CriterionResult → Items
unfolding criterion_json
criteria_json [] = nil
criteria_json (c ∷ cs) = cons (criterion_json c) (criteria_json cs)

-- `grade.score * task.weight / 100.0`
pub weighted : ExamTask → LiveGrade → ℕ
weighted task grade = grade.score * task.weight

task_json : ExamTask → LiveGrade → Json
unfolding criteria_json weighted
task_json task grade = Json.obj (
    field "id" (Json.str task.task_id) (
      field "title" (Json.str task.title) (
        field "weight" (Json.int task.weight) (
          field "score" (Json.hundredths grade.score) (
            field "weighted_score" (Json.hundredths (round_div (weighted task grade) 100)) (
              field "status" (Json.str (status_value grade.status))
                (field "criteria" (Json.arr (criteria_json grade.criteria)) end)))))))

-- The loop over the tasks: the sum, the statuses and the results.
pub record Tally : Type 0 where
  pub score : ℕ
  pub statuses : List GradeStatus
  pub task_results : Items

pub tally_grades : List ExamTask → Grades → Result Tally
unfolding lookup_grade weighted task_json
tally_grades [] gs = ok (record { score = 0; statuses = []; task_results = nil })
tally_grades (task ∷ tasks) gs = elim (lookup_grade task.task_id gs) [
  | none ↦ raise Kind.other "KeyError"
  | some grade ↦ tally_grades tasks gs >>= λ rest. ok (record {
    score = weighted task grade + rest.score;
    statuses = grade.status ∷ rest.statuses;
    task_results = cons (task_json task grade) rest.task_results;
  })
]

abbrev is_tampered : GradeStatus → Bool
is_tampered lab_tampered = true
is_tampered _ = false

abbrev is_broken : GradeStatus → Bool
is_broken lab_broken = true
is_broken _ = false

-- `status in statuses`, by its test
pub any_status : (GradeStatus → Bool) → List GradeStatus → Bool
any_status test [] = false
any_status test (s ∷ ss) = test s || any_status test ss

pub overall_passed : List GradeStatus → ℕ → Bool
unfolding any_status
overall_passed statuses rounded =
    if any_status is_tampered statuses
    then false
    else if any_status is_broken statuses
    then false
    else leb pass_score rounded

pub overall_status : List GradeStatus → ℕ → String
unfolding any_status
overall_status statuses rounded =
    if any_status is_tampered statuses
    then "LAB_TAMPERED"
    else if any_status is_broken statuses
    then "LAB_BROKEN"
    else if leb pass_score rounded
    then "PASS"
    else "FAIL"

abbrev mode_value : ExamMode → String
mode_value practice = "practice"
mode_value exam = "exam"

abbrev reason_json : Option ExamEndReason → Json
reason_json none = Json.null
reason_json (some manual) = Json.str "manual"
reason_json (some expired) = Json.str "expired"

abbrev time_json : Option Instant → Json
time_json none = Json.null
time_json (some t) = Json.int t

-- The receipt before its digest is added.
pub receipt_fields : ExamSession → Tally → Fields → Fields
unfolding overall_passed overall_status
receipt_fields s tally tail =
    let rounded = round_div tally.score 100 in
    field "schema_version" (Json.int 1) (
      field "session_id" (Json.str s.session_id) (
        field "lab_id" (Json.str s.lab_id) (
          field "mode" (Json.str (mode_value s.mode)) (
            field "catalog_sha256" (Json.str s.catalog_sha256) (
              field "manifest_sha256" (Json.str s.manifest_sha256) (
                field "started_at" (time_json s.started_at) (
                  field "deadline_at" (time_json s.deadline_at) (
                    field "end_reason" (reason_json s.end_reason) (
                      field "score" (Json.hundredths rounded) (
                        field "possible" (Json.int 100) (
                          field "pass_score" (Json.hundredths pass_score) (
                            field "passed" (Json.bool (overall_passed tally.statuses rounded)) (
                              field "status" (Json.str (overall_status tally.statuses rounded))
                                (field "tasks" (Json.arr tally.task_results) tail))))))))))))))

module _ (sha256 : Fields → String) where
  unfoldable pub aggregate_exam_grades : ExamSession → ExamManifest → Grades → Result Fields
  unfolding same_keys tally_grades receipt_fields
  aggregate_exam_grades s manifest grades = do
    raise_if (not (is_submitting s.status)) Kind.exam_conflict_error
        "aggregate scoring requires a submitting exam"
    raise_if
        (not (str_eq manifest.catalog_sha256 s.catalog_sha256)
          || not (str_eq manifest.manifest_sha256 s.manifest_sha256))
        Kind.exam_state_error "aggregate scoring manifest mismatch"
    raise_if (not (same_keys grades)) Kind.exam_state_error
        "aggregate scoring requires exactly one result for every task"
    tally ← tally_grades manifest.tasks grades
    ok (
        receipt_fields s tally
          (field "receipt_sha256" (Json.str (sha256 (receipt_fields s tally end))) end))
