-- ===== src/LiveGrading.antt =====
-- cks_simulator/live_grading.py: trusted evidence graded against a declared set of criteria.
-- Weights are natural numbers of one small unit, so that the sums are exact; scores are in
-- hundredths. The records are those that `__post_init__` has let through.
pub mod Indexes
pub mod Totals
pub mod Verdict
pub mod Trust
mod Examples
use Prim.Native.String.{compare}
use text.Mathlib.Text.{is_lt}
use cks_simulator.Common.{
  ℕ, ◌+◌, ◌*◌, String, Bool, true, false, not, ◌&&◌, ◌||◌, Option, none, some, List, [], ◌∷◌, ◌++◌,
  map, ltb, ◌==◌, if◌then◌else◌, is_none, is_empty, length, str_eq, round_div, Kind, Result, ok,
  raise, raise_if, ◌>>=◌, ◌>>◌,
}

pub data GradeStatus : Type 0 where
  pass partial fail lab_tampered lab_broken : GradeStatus

pub data TrustSource : Type 0 where
  operator cross_source guest : TrustSource

pub record ExpectedCriterion : Type 0 where
  pub criterion_id : String
  pub label : String
  pub weight : ℕ

pub record CriterionEvidence : Type 0 where
  pub criterion_id : String
  pub label : String
  pub weight : ℕ
  pub passed : Bool
  pub trust_source : TrustSource
  pub detail : String

pub record LabSignals : Type 0 where
  pub lab_broken : Bool
  pub tampered : Bool
  pub detail : String

pub record CriterionResult : Type 0 where
  pub criterion_id : String
  pub label : String
  pub weight : ℕ
  pub passed : Bool
  pub trust_source : Option TrustSource
  pub detail : String
  pub evidence_present : Bool

pub record LiveGrade : Type 0 where
  pub status : GradeStatus
  pub score : ℕ
  pub earned_weight : ℕ
  pub possible_weight : ℕ
  pub criterion_denominator : ℕ
  pub evidence_count : ℕ
  pub criteria : List CriterionResult
  pub lab_broken : Bool
  pub tampered : Bool
  pub signal_detail : String

-- The dictionaries `expected_by_id` and `evidence_by_id`, as their values in insertion order.
pub lookup_expected : String → List ExpectedCriterion → Option ExpectedCriterion
lookup_expected k [] = none
lookup_expected k (c ∷ cs) = if str_eq c.criterion_id k then some c else lookup_expected k cs

pub lookup_evidence : String → List CriterionEvidence → Option CriterionEvidence
lookup_evidence k [] = none
lookup_evidence k (e ∷ es) = if str_eq e.criterion_id k then some e else lookup_evidence k es

-- The loop over the declared criteria.
pub index_expected :
    List ExpectedCriterion → List ExpectedCriterion → Result (List ExpectedCriterion)
unfolding lookup_expected
index_expected expected_by_id [] = ok expected_by_id
index_expected expected_by_id (item ∷ items) = do
  raise_if (not (is_none (lookup_expected item.criterion_id expected_by_id))) Kind.value_error
      "duplicate expected criterion"
  index_expected (expected_by_id ++ item ∷ []) items

-- The evidence must repeat the label and the weight of its criterion.
check_declared : CriterionEvidence → Option ExpectedCriterion → Result (Unit {0})
check_declared item none = raise Kind.value_error "undeclared evidence"
check_declared item (some expected) =
    raise_if (not (str_eq item.label expected.label) || not (item.weight == expected.weight))
      Kind.value_error "evidence metadata disagrees for criterion"

-- The loop over the evidence.
pub index_evidence :
    List ExpectedCriterion
    → List CriterionEvidence
    → List CriterionEvidence
    → Result (List CriterionEvidence)
unfolding lookup_expected lookup_evidence check_declared
index_evidence expected_by_id evidence_by_id [] = ok evidence_by_id
index_evidence expected_by_id evidence_by_id (item ∷ items) = do
  raise_if (not (is_none (lookup_evidence item.criterion_id evidence_by_id))) Kind.value_error
      "duplicate evidence"
  check_declared item (lookup_expected item.criterion_id expected_by_id)
  index_evidence expected_by_id (evidence_by_id ++ item ∷ []) items

-- `sorted(expected_by_id)`, with each identifier's criterion; the identifiers are distinct.
pub insert_sorted : ExpectedCriterion → List ExpectedCriterion → List ExpectedCriterion
insert_sorted c [] = c ∷ []
insert_sorted c (d ∷ ds) =
    if is_lt (compare d.criterion_id c.criterion_id) then d ∷ insert_sorted c ds else c ∷ d ∷ ds

pub sort_expected : List ExpectedCriterion → List ExpectedCriterion
unfolding insert_sorted
sort_expected [] = []
sort_expected (c ∷ cs) = insert_sorted c (sort_expected cs)

abbrev is_trusted : TrustSource → Bool
is_trusted TrustSource.operator = true
is_trusted TrustSource.cross_source = true
is_trusted TrustSource.guest = false

pub missing_result : ExpectedCriterion → CriterionResult
missing_result expected = record {
  criterion_id = expected.criterion_id;
  label = expected.label;
  weight = expected.weight;
  passed = false;
  trust_source = none;
  detail = "missing evidence";
  evidence_present = false;
}

pub observed_result : Bool → ExpectedCriterion → CriterionEvidence → CriterionResult
observed_result lab_evidence_valid expected observed = record {
  criterion_id = expected.criterion_id;
  label = expected.label;
  weight = expected.weight;
  passed = observed.passed && is_trusted observed.trust_source && lab_evidence_valid;
  trust_source = some observed.trust_source;
  detail = observed.detail;
  evidence_present = true;
}

-- The body of the loop over the sorted criteria.
pub criterion_result : Bool → List CriterionEvidence → ExpectedCriterion → CriterionResult
unfolding missing_result observed_result lookup_evidence
criterion_result lab_evidence_valid evidence_by_id expected =
    elim (lookup_evidence expected.criterion_id evidence_by_id) [
      | none ↦ missing_result expected
      | some observed ↦ observed_result lab_evidence_valid expected observed
    ]

pub possible_of : List CriterionResult → ℕ
possible_of [] = 0
possible_of (r ∷ rs) = r.weight + possible_of rs

pub earned_of : List CriterionResult → ℕ
earned_of [] = 0
earned_of (r ∷ rs) = (if r.passed then r.weight else 0) + earned_of rs

pub status_of : Bool → Bool → ℕ → ℕ → GradeStatus
status_of tampered broken earned possible =
    if tampered
    then lab_tampered
    else if broken
    then GradeStatus.lab_broken
    else if earned == possible
    then pass
    else if ltb 0 earned
    then partial
    else fail

pub summarize : LabSignals → List CriterionEvidence → List CriterionResult → LiveGrade
unfolding possible_of earned_of status_of
summarize signals evidence_by_id criteria = record {
  status =
      status_of signals.tampered signals.lab_broken (earned_of criteria) (possible_of criteria);
  score = round_div (earned_of criteria * 10000) (possible_of criteria);
  earned_weight = earned_of criteria;
  possible_weight = possible_of criteria;
  criterion_denominator = length criteria;
  evidence_count = length evidence_by_id;
  criteria = criteria;
  lab_broken = signals.lab_broken;
  tampered = signals.tampered;
  signal_detail = signals.detail;
}

unfoldable pub evaluate_live_grade :
    List ExpectedCriterion → List CriterionEvidence → LabSignals → Result LiveGrade
unfolding index_expected index_evidence sort_expected criterion_result summarize
evaluate_live_grade expected_criteria evidence signals = do
  expected_by_id ← index_expected [] expected_criteria
  raise_if (is_empty expected_by_id) Kind.value_error
      "expected_criteria must declare at least one criterion"
  evidence_by_id ← index_evidence expected_by_id [] evidence
  let lab_evidence_valid = not signals.tampered && not signals.lab_broken
  ok (
      summarize signals evidence_by_id
        (map (criterion_result lab_evidence_valid evidence_by_id) (sort_expected expected_by_id)))
