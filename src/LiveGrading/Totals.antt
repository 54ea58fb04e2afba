-- ===== src/LiveGrading/Totals.antt =====
-- The two weights of a grade: what is possible is fixed by the declaration, and the earned part
-- never exceeds it.
use cks_simulator.Common.{
  ℕ, suc, ◌+◌, ◌≤◌, ◌<◌, ◌≡◌, refl, Bool, true, false, List, [], ◌∷◌, map, length, All, arith,
}
use cks_simulator.LiveGrading.{
  ExpectedCriterion, CriterionEvidence, CriterionResult, insert_sorted, sort_expected,
  criterion_result, possible_of, earned_of,
}

-- The sum of the declared weights, and their positivity.
abbrev pub declared_weight : List ExpectedCriterion → ℕ
declared_weight [] = 0
declared_weight (c ∷ cs) = c.weight + declared_weight cs

abbrev pub IsWeighted : ExpectedCriterion → Type 0
IsWeighted c = 0 < c.weight

declared_weight-insert_sorted :
    (c : ExpectedCriterion) (cs : List ExpectedCriterion)
    → declared_weight (insert_sorted c cs) ≡ c.weight + declared_weight cs
unfolding insert_sorted
declared_weight-insert_sorted c [] = refl
declared_weight-insert_sorted c (d ∷ ds) = ground (arith, declared_weight-insert_sorted c ds)

pub declared_weight-sort_expected :
    (cs : List ExpectedCriterion) → declared_weight (sort_expected cs) ≡ declared_weight cs
unfolding sort_expected
declared_weight-sort_expected [] = refl
declared_weight-sort_expected (c ∷ cs) =
    omega
      (arith, declared_weight-insert_sorted c (sort_expected cs), declared_weight-sort_expected cs)

length-insert_sorted :
    (c : ExpectedCriterion) (cs : List ExpectedCriterion)
    → length (insert_sorted c cs) ≡ suc (length cs)
unfolding insert_sorted
length-insert_sorted c [] = refl
length-insert_sorted c (d ∷ ds) = ground (arith, length-insert_sorted c ds)

pub length-sort_expected : (cs : List ExpectedCriterion) → length (sort_expected cs) ≡ length cs
unfolding sort_expected
length-sort_expected [] = refl
length-sort_expected (c ∷ cs) =
    omega (arith, length-insert_sorted c (sort_expected cs), length-sort_expected cs)

All-insert_sorted {κ} :
    (P : ExpectedCriterion → Type κ) (c : ExpectedCriterion) (cs : List ExpectedCriterion)
    → P c
    → All P cs
    → All P (insert_sorted c cs)
unfolding insert_sorted
All-insert_sorted P c [] p ps = (p, tt)
All-insert_sorted P c (d ∷ ds) p ps = ground (arith, All-insert_sorted P c ds p ps.1)

pub All-sort_expected {κ} :
    (P : ExpectedCriterion → Type κ) (cs : List ExpectedCriterion)
    → All P cs
    → All P (sort_expected cs)
unfolding sort_expected
All-sort_expected P [] ps = tt
All-sort_expected P (c ∷ cs) ps =
    All-insert_sorted P c (sort_expected cs) ps.0 (All-sort_expected P cs ps.1)

module _ (clean : Bool) (es : List CriterionEvidence) where
  pub weight-criterion_result :
      (c : ExpectedCriterion) → (criterion_result clean es c).weight ≡ c.weight
  unfolding criterion_result
  weight-criterion_result c = ground arith

  pub possible_of-map :
      (cs : List ExpectedCriterion)
      → possible_of (map (criterion_result clean es) cs) ≡ declared_weight cs
  unfolding possible_of
  possible_of-map [] = refl
  possible_of-map (c ∷ cs) = omega (arith, weight-criterion_result c, possible_of-map cs)

  pub length-map_result :
      (cs : List ExpectedCriterion) → length (map (criterion_result clean es) cs) ≡ length cs
  length-map_result [] = refl
  length-map_result (c ∷ cs) = omega (arith, length-map_result cs)

pub earned-le-possible : (rs : List CriterionResult) → earned_of rs ≤ possible_of rs
unfolding earned_of possible_of
earned-le-possible [] = omega arith
earned-le-possible (r ∷ rs) = ground (arith, earned-le-possible rs)

abbrev pub IsPassed : CriterionResult → Type 0
IsPassed r = r.passed ≡ true

-- With positive weights all is earned exactly when every criterion has passed.
pub earned_of-All :
    (rs : List CriterionResult)
    → All (λ r. 0 < r.weight) rs
    → earned_of rs ≡ possible_of rs
    → All IsPassed rs
unfolding earned_of possible_of
earned_of-All [] ps h = tt
earned_of-All (r ∷ rs) ps h =
    let bound : earned_of rs ≤ possible_of rs = earned-le-possible rs in
    let (here, rest) : (r.passed ≡ true) × (earned_of rs ≡ possible_of rs) = ground arith in
    (here, earned_of-All rs ps.1 rest)

pub All-earned_of : (rs : List CriterionResult) → All IsPassed rs → earned_of rs ≡ possible_of rs
unfolding earned_of possible_of
All-earned_of [] ps = refl
All-earned_of (r ∷ rs) ps = ground (arith, All-earned_of rs ps.1)

-- In a lab that is not clean no criterion passes.
dirty_result :
    (es : List CriterionEvidence) (c : ExpectedCriterion)
    → (criterion_result false es c).passed ≡ false
unfolding criterion_result
dirty_result es c = ground arith

pub dirty_earns_nothing :
    (es : List CriterionEvidence) (cs : List ExpectedCriterion)
    → earned_of (map (criterion_result false es) cs) ≡ 0
unfolding earned_of
dirty_earns_nothing es [] = refl
dirty_earns_nothing es (c ∷ cs) = ground (arith, dirty_result es c, dirty_earns_nothing es cs)
