-- ===== src/Lab/State/Equality.antt =====
-- `left == right` for the states of a lab, which the dataclasses compare field by field.
use native.Mathlib.Decide.{ℕ_discrete}
use cks_simulator.Common.{
  ◌≡◌, refl, ◌↔◌, inl, inr, String, Bool, true, false, str_eq, eq_iff, Bool-cases, arith,
}
use cks_simulator.Lab.State.{LabState}

String-discrete : Discrete String
String-discrete s t = elim (Bool-cases (str_eq s t)) [
  | inl same ↦ yes ((eq_iff s t).0 same)
  | inr other ↦ no (λ e. ground (arith, eq_iff s t))
]

pub LabState-discrete : Discrete LabState
LabState-discrete = hlevel (ℕ_discrete, String-discrete)

pub state_eq : LabState → LabState → Bool
state_eq s t = elim (LabState-discrete s t) [ yes _ ↦ true | no _ ↦ false ]

pub state_eq_iff : (s t : LabState) → (state_eq s t ≡ true) ↔ (s ≡ t)
unfolding state_eq
state_eq_iff s t =
    elim (LabState-discrete s t)
      as (λ d. (elim d [ yes _ ↦ true | no _ ↦ false ] ≡ true) ↔ (s ≡ t)) [
        | yes e ↦ ((λ _. e), (λ _. refl))
        | no n ↦ ((λ h. cc h), (λ e. absurd (n e)))
      ]
