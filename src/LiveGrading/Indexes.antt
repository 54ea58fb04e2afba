-- ===== src/LiveGrading/Indexes.antt =====
-- The two dictionaries of `evaluate_live_grade`: on success they hold what was given, in order, with
-- distinct identifiers, and every piece of evidence agrees with a declared criterion.
use mathlib.Core.List.{append-nil, append_assoc}
use cks_simulator.Common.{
  ◌≡◌, ◌∙◌, some, List, [], ◌∷◌, ◌++◌, eq_iff, All, ok, arith, Option-cases, inl, inr,
}
use cks_simulator.LiveGrading.{
  ExpectedCriterion, CriterionEvidence, lookup_expected, index_expected, index_evidence,
  check_declared,
}

-- Evidence that repeats the label and the weight of the declared criterion of its identifier.
abbrev pub Declared : List ExpectedCriterion → CriterionEvidence → Type 0
Declared cs e =
    (c : ExpectedCriterion) × (lookup_expected e.criterion_id cs ≡ some c)
    × (e.label ≡ c.label)
    × (e.weight ≡ c.weight)

index_expected-append :
    (items acc r : List ExpectedCriterion) → index_expected acc items ≡ ok r → r ≡ acc ++ items
unfolding index_expected
index_expected-append [] acc r h = rw append-nil (cc)
index_expected-append (x ∷ items) acc r h =
    index_expected-append items (acc ++ x ∷ []) r (ground arith) ∙ append_assoc acc (x ∷ []) items

-- Without a duplicate the dictionary of the criteria is the declared list.
pub index_expected-eq :
    (items r : List ExpectedCriterion) → index_expected [] items ≡ ok r → r ≡ items
index_expected-eq items r h = index_expected-append items [] r h

check_declared_inv :
    (e : CriterionEvidence) (cs : List ExpectedCriterion)
    → check_declared e (lookup_expected e.criterion_id cs) ≡ ok tt
    → Declared cs e
unfolding check_declared
check_declared_inv e cs h = elim (Option-cases (lookup_expected e.criterion_id cs)) [
  | inl undeclared ↦ ground arith
  | inr (c, found) ↦
      (c, found, ground (arith, eq_iff e.label c.label), ground (arith, eq_iff e.label c.label))
]

index_evidence_inv :
    (cs : List ExpectedCriterion) (items acc r : List CriterionEvidence)
    → index_evidence cs acc items ≡ ok r
    → (r ≡ acc ++ items) × All (Declared cs) items
unfolding index_evidence
index_evidence_inv cs [] acc r h = (rw append-nil (cc), tt)
index_evidence_inv cs (x ∷ items) acc r h =
    let declared : check_declared x (lookup_expected x.criterion_id cs) ≡ ok tt = ground arith in
    let rest : index_evidence cs (acc ++ x ∷ []) items ≡ ok r = ground arith in
    let (eq, all) = index_evidence_inv cs items (acc ++ x ∷ []) r rest in
    (eq ∙ append_assoc acc (x ∷ []) items, (check_declared_inv x cs declared, all))

-- On success the dictionary of the evidence is the given list, all of it declared.
pub index_evidence-eq :
    (cs : List ExpectedCriterion) (items r : List CriterionEvidence)
    → index_evidence cs [] items ≡ ok r
    → (r ≡ items) × All (Declared cs) items
index_evidence-eq cs items r h = index_evidence_inv cs items [] r h
