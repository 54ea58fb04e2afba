-- ===== src/Common/Exceptions.antt =====
-- Python's exceptions as values. A message keeps the literal text of the source; the values that an
-- f-string puts into it are left out.
use Prim.Native.String.{String}
use mathlib.Core.Path.{◌≡◌, refl}
use mathlib.Core.Bool.{Bool, true, false}

-- The exception classes that the modelled code raises or tells apart. `other` is any class that is
-- raised by code the model takes as a parameter, such as `KeyboardInterrupt`.
pub data Kind : Type 0 where
  exam_state_error exam_conflict_error value_error type_error : Kind
  state_missing_error state_exists_error state_validation_error : Kind
  ownership_error invalid_transition_error : Kind
  scenario_contract_error scenario_lifecycle_error : Kind
  other : Kind

pub record Exception : Type 0 where
  pub kind : Kind
  pub message : String

pub data Result {ℓ} (A : Type ℓ) : Type ℓ where
  ok : A → Result A
  err : Exception → Result A

abbrev pub raise {ℓ} : {A : Type ℓ} → Kind → String → Result A
raise k m = err (record { kind = k; message = m })

-- `if test: raise kind(message)`
abbrev pub raise_if : Bool → Kind → String → Result (Unit {0})
raise_if true k m = raise k m
raise_if false k m = ok tt

-- The statements after a call that has returned.
infixl 5 ◌>>=◌
abbrev pub ◌>>=◌ {ℓ κ} : {A : Type ℓ} {B : Type κ} → Result A → (A → Result B) → Result B
ok value >>= next = next value
err e >>= next = err e

-- What a method that returns nothing gives: it has raised or not.
abbrev pub Checked : Type 0
Checked = Result (Unit {0})

infixl 5 ◌>>◌
abbrev pub ◌>>◌ {ℓ} : {B : Type ℓ} → Checked → Result B → Result B
check >> rest = check >>= λ _. rest

-- The call raises an exception of the class.
abbrev pub Raises {ℓ} : {A : Type ℓ} → Kind → Result A → Type 0
Raises k (ok _) = ⊥
Raises k (err e) = e.kind ≡ k

-- The call raises some exception.
abbrev pub Fails {ℓ} : {A : Type ℓ} → Result A → Type 0
Fails (ok _) = ⊥
Fails (err e) = Unit

-- What succeeds in the end has succeeded at first.
pub bind_ok {ℓ κ} :
    {A : Type ℓ} {B : Type κ} {f : A → Result B} {b : B} (m : Result A)
    → (m >>= f) ≡ ok b
    → (a : A) × (m ≡ ok a) × (f a ≡ ok b)
bind_ok (ok a) h = (a, refl, h)
bind_ok (err e) h = cc
