-- ===== src/LiveGrading/Examples.antt =====
-- The theorems on a grade at two criteria, of which the guest's evidence supports one only.
use cks_simulator.Common.{◌≡◌, refl, Bool, true, false, List, [], ◌∷◌, All, Result, ok, round_div}
use cks_simulator.LiveGrading.{
  TrustSource, operator, guest, ExpectedCriterion, CriterionEvidence, LabSignals, LiveGrade,
  evaluate_live_grade, summarize,
}
use cks_simulator.LiveGrading.Verdict.{graded}
use cks_simulator.LiveGrading.Trust.{Supported, evaluate-Supported}

abbrev criteria : List ExpectedCriterion
criteria =
    record { criterion_id = "policy"; label = "policy"; weight = 300 }
    ∷ record { criterion_id = "audit"; label = "audit"; weight = 100 }
    ∷ []

abbrev evidence_from : TrustSource → List CriterionEvidence
evidence_from source =
    record {
      criterion_id = "audit";
      label = "audit";
      weight = 100;
      passed = true;
      trust_source = source;
      detail = "seen";
    }
    ∷ record {
      criterion_id = "policy";
      label = "policy";
      weight = 300;
      passed = true;
      trust_source = operator;
      detail = "seen";
    }
    ∷ []

abbrev signals_of : Bool → LabSignals
signals_of tampered = record { lab_broken = false; tampered = tampered; detail = "" }

abbrev grade_of : TrustSource → Bool → LiveGrade
grade_of source tampered =
    summarize (signals_of tampered) (evidence_from source)
      (graded criteria (evidence_from source) (signals_of tampered))

abbrev evaluated : TrustSource → Bool → Result LiveGrade
evaluated source tampered =
    evaluate_live_grade criteria (evidence_from source) (signals_of tampered)

guest_evidence : evaluated guest false ≡ ok (grade_of guest false)
unfolding evaluate_live_grade
guest_evidence = refl

tampered_lab : evaluated operator true ≡ ok (grade_of operator true)
unfolding evaluate_live_grade
tampered_lab = refl

-- Of four points the guest's one does not count.
guest_earns_nothing :
    ((grade_of guest false).score ≡ 7500) × ((grade_of guest false).earned_weight ≡ 300)
unfolding evaluate_live_grade round_div
guest_earns_nothing = (refl, refl)

evaluate-Supported_example :
    All (Supported (evidence_from guest) (signals_of false)) (grade_of guest false).criteria
evaluate-Supported_example =
    evaluate-Supported criteria (evidence_from guest) (signals_of false) (grade_of guest false)
      guest_evidence
