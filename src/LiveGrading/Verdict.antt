-- ===== src/LiveGrading/Verdict.antt =====
-- The grade that `evaluate_live_grade` returns: its weights, its score and its status.
use cks_simulator.Common.{
  ◌*◌, ◌≤◌, ◌<◌, ◌≡◌, refl, ◌∙◌, if◌then◌else◌, Bool, false, not, ◌&&◌, List, [], ◌∷◌, map, length,
  is_empty, round_div-le, All, ok, arith,
}
use cks_simulator.LiveGrading.{
  GradeStatus, lab_tampered, ExpectedCriterion, CriterionEvidence, LabSignals, LiveGrade,
  CriterionResult, index_expected, index_evidence, sort_expected, criterion_result, possible_of,
  earned_of, status_of, summarize, evaluate_live_grade,
}
use cks_simulator.LiveGrading.Indexes.{Declared, index_expected-eq, index_evidence-eq}
use cks_simulator.LiveGrading.Totals.{
  declared_weight, IsWeighted, declared_weight-sort_expected, length-sort_expected, possible_of-map,
  length-map_result, earned-le-possible, dirty_earns_nothing,
}

abbrev pub is_clean : LabSignals → Bool
is_clean signals = not signals.tampered && not signals.lab_broken

-- The results that the evaluation of a declaration over its evidence gives.
abbrev pub graded :
    List ExpectedCriterion → List CriterionEvidence → LabSignals → List CriterionResult
graded cs es signals = map (criterion_result (is_clean signals) es) (sort_expected cs)

module _ (cs : List ExpectedCriterion) (es : List CriterionEvidence) (signals : LabSignals) where
  evaluate_parts :
      (g : LiveGrade)
      → evaluate_live_grade cs es signals ≡ ok g
      → (ds : List ExpectedCriterion) × (index_expected [] cs ≡ ok ds)
        × (is_empty ds ≡ false)
        × ((fs : List CriterionEvidence) × (index_evidence ds [] es ≡ ok fs)
            × (g
                ≡ summarize signals fs
                    (map (criterion_result (is_clean signals) fs) (sort_expected ds))))
  unfolding evaluate_live_grade
  evaluate_parts g h = ground arith

  -- A grade comes only from a declaration that is not empty and evidence that is all declared.
  pub evaluate_inv :
      (g : LiveGrade)
      → evaluate_live_grade cs es signals ≡ ok g
      → (g ≡ summarize signals es (graded cs es signals))
        × (is_empty cs ≡ false)
        × All (Declared cs) es
  evaluate_inv g h =
      let (ds, d, full, rest) = evaluate_parts g h in
      let (fs, f, eq) = rest in
      let ds_eq : ds ≡ cs = index_expected-eq cs ds d in
      let (fs_eq, declared) = index_evidence-eq ds es fs f in
      rw (← ds_eq) (rw fs_eq at eq, full, declared)

  pub possible-graded : possible_of (graded cs es signals) ≡ declared_weight cs
  possible-graded = omega (
    arith,
    possible_of-map (is_clean signals) es (sort_expected cs),
    declared_weight-sort_expected cs,
  )

  declared_positive : All IsWeighted cs → is_empty cs ≡ false → 0 < declared_weight cs
  declared_positive w h = go cs w h
    where
      go :
          (ds : List ExpectedCriterion)
          → All IsWeighted ds
          → is_empty ds ≡ false
          → 0 < declared_weight ds
      go [] p e = cc
      go (d ∷ ds) p e = omega arith

  -- If the declared weights are positive, the denominator of a grade is the declaration's, its
  -- criteria and its weight, whatever the evidence; the earned part is within it, and the score is
  -- at most 100 points.
  pub evaluate_bounds :
      (g : LiveGrade)
      → All IsWeighted cs
      → evaluate_live_grade cs es signals ≡ ok g
      → (g.possible_weight ≡ declared_weight cs)
        × (g.criterion_denominator ≡ length cs)
        × (g.evidence_count ≡ length es)
        × (g.earned_weight ≤ g.possible_weight)
        × (g.score ≤ 10000)
  unfolding summarize
  evaluate_bounds g w h =
      let (eq, full, declared) = evaluate_inv g h in
      let rs : List CriterionResult = graded cs es signals in
      let earned : earned_of rs ≤ possible_of rs = earned-le-possible rs in
      let size : length rs ≡ length cs =
        length-map_result (is_clean signals) es (sort_expected cs) ∙ length-sort_expected cs in
      let positive : 0 < possible_of rs =
        omega (arith, possible-graded, declared_positive w full) in
      rw eq (
        possible-graded,
        size,
        refl,
        earned,
        round_div-le (earned_of rs * 10000) (possible_of rs) 10000 positive (omega arith),
      )

  -- In a lab that is not clean the grade is LAB_TAMPERED if it is tampered, else LAB_BROKEN, and
  -- nothing is earned.
  pub evaluate_integrity :
      (g : LiveGrade)
      → is_clean signals ≡ false
      → evaluate_live_grade cs es signals ≡ ok g
      → (g.status ≡ (if signals.tampered then lab_tampered else GradeStatus.lab_broken))
        × (g.earned_weight ≡ 0)
  unfolding summarize status_of
  evaluate_integrity g dirty h =
      let (eq, full, declared) = evaluate_inv g h in
      let nothing : earned_of (graded cs es signals) ≡ 0 =
        rw dirty (dirty_earns_nothing es (sort_expected cs)) in
      rw eq (ground arith, nothing)
