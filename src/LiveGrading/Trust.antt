-- ===== src/LiveGrading/Trust.antt =====
-- Only trusted evidence earns: what stands behind each criterion that has passed.
use mathlib.Core.List.{Memᴰ}
use cks_simulator.Common.{
  ◌≡◌, ◌≢◌, refl, ◌⊎◌, inl, inr, String, true, false, Option, none, some, List, [], ◌∷◌, map,
  str_eq, eq_iff, All, ok, arith, Bool-cases,
}
use cks_simulator.LiveGrading.{
  guest, ExpectedCriterion, CriterionEvidence, LabSignals, CriterionResult, LiveGrade,
  lookup_evidence, sort_expected, criterion_result, missing_result, observed_result, summarize,
  evaluate_live_grade,
}
use cks_simulator.LiveGrading.Verdict.{is_clean, evaluate_inv}

-- A piece of evidence that is given, names the criterion, says that it passed, and does not come
-- from the guest; and a lab that is clean.
pub record Support (es : List CriterionEvidence) (signals : LabSignals) (r : CriterionResult)
    : Type 0 where
  pub evidence : CriterionEvidence
  pub given : Memᴰ evidence es
  pub names : evidence.criterion_id ≡ r.criterion_id
  pub says_passed : evidence.passed ≡ true
  pub not_guest : evidence.trust_source ≢ guest
  pub clean : is_clean signals ≡ true

abbrev pub Supported : List CriterionEvidence → LabSignals → CriterionResult → Type 0
Supported es signals r = (r.passed ≡ false) ⊎ Support es signals r

lookup_evidence_found :
    (k : String) (es : List CriterionEvidence) (e : CriterionEvidence)
    → lookup_evidence k es ≡ some e
    → Memᴰ e es × (e.criterion_id ≡ k)
unfolding lookup_evidence
lookup_evidence_found k [] e h = cc
lookup_evidence_found k (x ∷ es) e h = elim (Bool-cases (str_eq x.criterion_id k)) [
  | inl here ↦
      let same : e ≡ x = ground arith in
      (Memᴰ.head same, rw same ((eq_iff x.criterion_id k).0 here))
  | inr there ↦ let (m, named) = lookup_evidence_found k es e (ground arith) in (Memᴰ.tail m, named)
]

criterion_result-Supported :
    (signals : LabSignals) (es : List CriterionEvidence) (c : ExpectedCriterion)
    → Supported es signals (criterion_result (is_clean signals) es c)
unfolding criterion_result
criterion_result-Supported signals es c = go (lookup_evidence c.criterion_id es) refl
  where
    go :
        (o : Option CriterionEvidence)
        → lookup_evidence c.criterion_id es ≡ o
        → Supported es signals (elim o [
          | none ↦ missing_result c
          | some observed ↦ observed_result (is_clean signals) c observed
        ])
    go none e = inl refl
    go (some observed) e =
        let (m, named) = lookup_evidence_found c.criterion_id es observed e in
        elim (Bool-cases (observed_result (is_clean signals) c observed).passed) [
          | inr failed ↦ inl failed
          | inl passed ↦ inr (record {
            evidence = observed;
            given = m;
            names = named;
            says_passed = ground arith;
            not_guest = ground arith;
            clean = ground arith;
          })
        ]

-- Every criterion of a grade that has passed is supported by given evidence that is not the guest's,
-- in a clean lab.
pub evaluate-Supported :
    (cs : List ExpectedCriterion) (es : List CriterionEvidence) (signals : LabSignals)
    (g : LiveGrade)
    → evaluate_live_grade cs es signals ≡ ok g
    → All (Supported es signals) g.criteria
unfolding summarize
evaluate-Supported cs es signals g h =
    let (eq, full, declared) = evaluate_inv cs es signals g h in rw eq (go (sort_expected cs))
  where
    go :
        (ds : List ExpectedCriterion)
        → All (Supported es signals) (map (criterion_result (is_clean signals) es) ds)
    go [] = tt
    go (d ∷ ds) = (criterion_result-Supported signals es d, go ds)
