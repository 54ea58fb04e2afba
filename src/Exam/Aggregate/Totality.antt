-- ===== src/Exam/Aggregate/Totality.antt =====
-- When `aggregate_exam_grades` gives a receipt.
use cks_simulator.Common.{
  ◌≡◌, refl, inl, inr, String, true, false, some, List, [], ◌∷◌, map, str_eq, eq_iff, ◌+◌, Json,
  nil, cons, Fields, field, end, no_fields, ok, arith, Bool-cases,
}
use cks_simulator.Exam.Base.{expected_task_ids, submitting}
use cks_simulator.Exam.Manifest.{ExamTask, ExamManifest}
use cks_simulator.Exam.Session.{ExamSession}
use cks_simulator.LiveGrading.{LiveGrade}
use cks_simulator.Exam.Aggregate.{
  Grades, lookup_grade, is_key, all_keys, weighted, task_json, Tally, tally_grades, same_keys,
  receipt_fields, aggregate_exam_grades,
}

is_key_lookup :
    (k : String) (gs : Grades) → is_key k gs ≡ true → (g : LiveGrade) × (lookup_grade k gs ≡ some g)
unfolding is_key lookup_grade
is_key_lookup k [] h = cc
is_key_lookup k ((j, x) ∷ gs) h = elim (Bool-cases (str_eq k j)) [
  | inl here ↦ (x, ground arith)
  | inr there ↦ let (g, found) = is_key_lookup k gs (ground arith) in (g, ground arith)
]

-- The tally with one more task.
abbrev with_task : ExamTask → LiveGrade → Tally → Tally
with_task task g rest = record {
  score = weighted task g + rest.score;
  statuses = g.status ∷ rest.statuses;
  task_results = cons (task_json task g) rest.task_results;
}

tally_total :
    (tasks : List ExamTask) (gs : Grades)
    → all_keys (map (λ t. t.task_id) tasks) gs ≡ true
    → (t : Tally) × (tally_grades tasks gs ≡ ok t)
unfolding all_keys tally_grades
tally_total [] gs h = (record { score = 0; statuses = []; task_results = nil }, refl)
tally_total (task ∷ tasks) gs h =
    let (g, found) = is_key_lookup task.task_id gs (ground arith) in
    let (rest, done) = tally_total tasks gs (ground arith) in (with_task task g rest, ground arith)

receipt_fields-full :
    (s : ExamSession) (t : Tally) (tail : Fields) → no_fields (receipt_fields s t tail) ≡ false
unfolding receipt_fields
receipt_fields-full s t tail = refl

module _ (sha256 : Fields → String) (s : ExamSession) (m : ExamManifest) (gs : Grades) where
  -- A submitting session, its own manifest and one grade for every task give a receipt.
  pub aggregate_total :
      s.status ≡ submitting
      → m.catalog_sha256 ≡ s.catalog_sha256
      → m.manifest_sha256 ≡ s.manifest_sha256
      → map (λ t. t.task_id) m.tasks ≡ expected_task_ids
      → same_keys gs ≡ true
      → (r : Fields) × (aggregate_exam_grades sha256 s m gs ≡ ok r) × (no_fields r ≡ false)
  unfolding aggregate_exam_grades
  aggregate_total live catalog manifest ids keys =
      let all : all_keys (map (λ t. t.task_id) m.tasks) gs ≡ true = rw ids (ground arith) in
      let (t, done) = tally_total m.tasks gs all in
      let digest : Fields =
        field "receipt_sha256" (Json.str (sha256 (receipt_fields s t end))) end in
      (
        receipt_fields s t digest,
        ground (
          arith,
          eq_iff m.catalog_sha256 s.catalog_sha256,
          eq_iff m.manifest_sha256 s.manifest_sha256,
        ),
        receipt_fields-full s t digest,
      )
