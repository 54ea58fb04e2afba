-- ===== src/Exam/Aggregate/Score.antt =====
-- What a receipt says, from the grades that it was built from.
use mathlib.Core.List.{Memᴰ}
use cks_simulator.Common.{
  ℕ, ◌+◌, ◌*◌, ◌≤◌, ◌≡◌, ◌≢◌, refl, sym, ap, ◌∙◌, String, Bool, true, false, some, List, [], ◌∷◌,
  leb, round_div, round_div-le, round_div_exact, Json, Fields, field, end, get_field, All, ok,
  arith,
}
use cks_simulator.Exam.Base.{pass_score}
use cks_simulator.Exam.Manifest.{ExamTask, ExamManifest, total_weight, construct_manifest}
use cks_simulator.Exam.Manifest.Built.{weights_total}
use cks_simulator.Exam.Session.{ExamSession}
use cks_simulator.LiveGrading.{GradeStatus, lab_tampered, lab_broken, LiveGrade}
use cks_simulator.Exam.Aggregate.{
  Grades, lookup_grade, Tally, tally_grades, weighted, any_status, is_tampered, is_broken,
  overall_passed, overall_status, receipt_fields, aggregate_exam_grades,
}

-- No grade is above 100 points.
abbrev pub WithinScale : String × LiveGrade → Type 0
WithinScale kg = kg.1.score ≤ 10000

lookup_grade_scale :
    (k : String) (gs : Grades) (g : LiveGrade)
    → All WithinScale gs
    → lookup_grade k gs ≡ some g
    → g.score ≤ 10000
unfolding lookup_grade
lookup_grade_scale k [] g w h = cc
lookup_grade_scale k ((j, x) ∷ gs) g w h = ground (arith, lookup_grade_scale k gs g w.1)

tally_step :
    (task : ExamTask) (tasks : List ExamTask) (gs : Grades) (t : Tally)
    → tally_grades (task ∷ tasks) gs ≡ ok t
    → (g : LiveGrade) × (lookup_grade task.task_id gs ≡ some g)
      × ((rest : Tally) × (tally_grades tasks gs ≡ ok rest)
          × (t.score ≡ weighted task g + rest.score)
          × (t.statuses ≡ g.status ∷ rest.statuses))
unfolding tally_grades
tally_step task tasks gs t h = ground arith

weighted-le :
    (task : ExamTask) (g : LiveGrade) → g.score ≤ 10000 → weighted task g ≤ 10000 * task.weight
unfolding weighted
weighted-le task g h = grind arith

tally_bound :
    (tasks : List ExamTask) (gs : Grades) (t : Tally)
    → All WithinScale gs
    → tally_grades tasks gs ≡ ok t
    → t.score ≤ 10000 * total_weight tasks
unfolding tally_grades
tally_bound [] gs t w h = ground arith
tally_bound (task ∷ tasks) gs t w h =
    let (g, found, more) = tally_step task tasks gs t h in
    let (rest, r, score, statuses) = more in
    omega (
      arith,
      score,
      weighted-le task g (lookup_grade_scale task.task_id gs g w found),
      tally_bound tasks gs rest w r,
    )

-- A grade of 100 points, passed.
abbrev pub IsFull : String × LiveGrade → Type 0
IsFull kg = (kg.1.score ≡ 10000) × (kg.1.status ≡ GradeStatus.pass)

lookup_grade_full :
    (k : String) (gs : Grades) (g : LiveGrade)
    → All IsFull gs
    → lookup_grade k gs ≡ some g
    → (g.score ≡ 10000) × (g.status ≡ GradeStatus.pass)
unfolding lookup_grade
lookup_grade_full k [] g w h = cc
lookup_grade_full k ((j, x) ∷ gs) g w h = ground (arith, lookup_grade_full k gs g w.1)

weighted_full :
    (task : ExamTask) (g : LiveGrade) → g.score ≡ 10000 → weighted task g ≡ 10000 * task.weight
unfolding weighted
weighted_full task g h = rw h refl

tally_full :
    (tasks : List ExamTask) (gs : Grades) (t : Tally)
    → All IsFull gs
    → tally_grades tasks gs ≡ ok t
    → (t.score ≡ 10000 * total_weight tasks)
      × (any_status is_tampered t.statuses ≡ false)
      × (any_status is_broken t.statuses ≡ false)
unfolding tally_grades any_status
tally_full [] gs t w h = ground arith
tally_full (task ∷ tasks) gs t w h =
    let (g, found, more) = tally_step task tasks gs t h in
    let (rest, r, score, statuses) = more in
    let (points, passed) = lookup_grade_full task.task_id gs g w found in
    let (ih, clean, whole) = tally_full tasks gs rest w r in
    (
      omega (arith, score, weighted_full task g points, ih),
      rw statuses (ground arith),
      rw statuses (ground arith),
    )

-- What no status of the tally is, no graded task is.
tally_any :
    (test : GradeStatus → Bool) (tasks : List ExamTask) (gs : Grades) (t : Tally) (task : ExamTask)
    (g : LiveGrade)
    → tally_grades tasks gs ≡ ok t
    → Memᴰ task tasks
    → lookup_grade task.task_id gs ≡ some g
    → any_status test t.statuses ≡ false
    → test g.status ≡ false
unfolding any_status
tally_any test [] gs t task g h m found none_meets = elim m [ ]
tally_any test (x ∷ tasks) gs t task g h (Memᴰ.head e) found none_meets =
    let (g', found', more) = tally_step x tasks gs t h in
    let (rest, r, score, statuses) = more in
    let same : g ≡ g' = ground arith in
    let head : any_status test (g'.status ∷ rest.statuses) ≡ false = rw statuses at none_meets in
    rw same (ground arith)
tally_any test (x ∷ tasks) gs t task g h (Memᴰ.tail m) found none_meets =
    let (g', found', more) = tally_step x tasks gs t h in
    let (rest, r, score, statuses) = more in
    let all : any_status test (g'.status ∷ rest.statuses) ≡ false = rw statuses at none_meets in
    tally_any test tasks gs rest task g r m found (ground arith)

module _ (sha256 : Fields → String) (s : ExamSession) (m : ExamManifest) (gs : Grades) where
  -- The last field of the receipt.
  abbrev digest_field : Tally → Fields
  digest_field t = field "receipt_sha256" (Json.str (sha256 (receipt_fields s t end))) end

  aggregate_inv :
      (r : Fields)
      → aggregate_exam_grades sha256 s m gs ≡ ok r
      → (t : Tally) × (tally_grades m.tasks gs ≡ ok t) × (r ≡ receipt_fields s t (digest_field t))
  unfolding aggregate_exam_grades
  aggregate_inv r h = ground arith

  -- The fields of a receipt that judge the exam.
  judged :
      (t : Tally) (tail : Fields)
      → let r = receipt_fields s t tail in
        let rounded = round_div t.score 100 in
        (get_field "score" r ≡ some (Json.hundredths rounded))
        × (get_field "passed" r ≡ some (Json.bool (overall_passed t.statuses rounded)))
        × (get_field "status" r ≡ some (Json.str (overall_status t.statuses rounded)))
  unfolding receipt_fields get_field
  judged t tail = (refl, refl, refl)

  -- If the manifest is constructed and no grade is above 100 points, the score of a receipt is at
  -- most 100 points.
  pub receipt_score_bound :
      (r : Fields)
      → construct_manifest m ≡ ok m
      → All WithinScale gs
      → aggregate_exam_grades sha256 s m gs ≡ ok r
      → (score : ℕ) × (get_field "score" r ≡ some (Json.hundredths score)) × (score ≤ 10000)
  receipt_score_bound r built w h =
      let total : total_weight m.tasks ≡ 100 = weights_total m m built in
      let (t, done, eq) = aggregate_inv r h in
      (
        round_div t.score 100,
        rw eq (judged t (digest_field t)).0,
        round_div-le t.score 100 10000 (omega arith)
            (omega (arith, tally_bound m.tasks gs t w done)),
      )

  -- If the manifest is constructed and every grade has 100 points and is PASS, the receipt has 100 points and says passed.
  pub receipt_full :
      (r : Fields)
      → construct_manifest m ≡ ok m
      → All IsFull gs
      → aggregate_exam_grades sha256 s m gs ≡ ok r
      → (get_field "score" r ≡ some (Json.hundredths 10000))
        × (get_field "passed" r ≡ some (Json.bool true))
        × (get_field "status" r ≡ some (Json.str "PASS"))
  unfolding overall_passed overall_status
  receipt_full r built w h =
      let total : total_weight m.tasks ≡ 100 = weights_total m m built in
      let (t, done, eq) = aggregate_inv r h in
      let (points, clean, whole) = tally_full m.tasks gs t w done in
      let score : round_div t.score 100 ≡ 10000 =
        rw (points, total) (round_div_exact 10000 100 (omega arith)) in
      let (j₁, j₂, j₃) = judged t (digest_field t) in
      rw eq (j₁ ∙ rw score, j₂ ∙ rw (clean, whole, score), j₃ ∙ rw (clean, whole, score))

  -- A receipt that says passed has at least the pass score, and no graded task of its manifest comes
  -- from a tampered or a broken lab.
  pub receipt_passed :
      (r : Fields) (task : ExamTask) (g : LiveGrade)
      → aggregate_exam_grades sha256 s m gs ≡ ok r
      → get_field "passed" r ≡ some (Json.bool true)
      → Memᴰ task m.tasks
      → lookup_grade task.task_id gs ≡ some g
      → (g.status ≢ lab_tampered)
        × (g.status ≢ lab_broken)
        × ((score : ℕ) × (get_field "score" r ≡ some (Json.hundredths score))
            × (pass_score ≤ score))
  unfolding overall_passed
  receipt_passed r task g h says here found =
      let (t, done, eq) = aggregate_inv r h in
      let (j₁, j₂, j₃) = judged t (digest_field t) in
      let rounded : ℕ = round_div t.score 100 in
      let said : some (Json.bool (overall_passed t.statuses rounded)) ≡ some (Json.bool true) =
        sym j₂ ∙ ap (get_field "passed") (sym eq) ∙ says in
      let judged_passed : overall_passed t.statuses rounded ≡ true = cc said in
      let clean : any_status is_tampered t.statuses ≡ false = ground arith in
      let whole : any_status is_broken t.statuses ≡ false = ground arith in
      let enough : leb pass_score rounded ≡ true = ground arith in
      let safe : is_tampered g.status ≡ false =
        tally_any is_tampered m.tasks gs t task g done here found clean in
      let sound : is_broken g.status ≡ false =
        tally_any is_broken m.tasks gs t task g done here found whole in
      ((λ e. ground arith), (λ e. ground arith), (rounded, rw eq j₁, ground arith))
