-- ===== src/Scenario/Returns.antt =====
-- How a proof goes through an action that has returned, one statement after the other: each rule
-- hands the proof of the rest what the statement has given.
use cks_simulator.Common.{
  ◌≡◌, refl, ap, String, Bool, true, false, not, Kind, Exception, Result, Checked, ok, err, arith,
}
use cks_simulator.Lab.Store.{check_lab}
use cks_simulator.Scenario.Monad.{
  World, Exec, follow, handled, after_handler, on_error, refuse_if, locked_by, locked,
}

module _ {ℓ} {Live A B : Type 0} {P : Type ℓ} where
  -- A call, of which nothing is known.
  pub after_call :
      (f : A → Exec Live B) (p : Result A × World Live) (b : B) (w' : World Live)
      → follow f p ≡ (ok b, w')
      → ((a : A) (v : World Live) → p ≡ (ok a, v) → f a v ≡ (ok b, w') → P)
      → P
  unfolding follow
  after_call f (ok a, v) b w' h rest = rest a v refl h
  after_call f (err e, v) b w' h rest = absurd (cc)

  -- A computation that leaves the world.
  pub after_lift :
      (f : A → Exec Live B) (r : Result A) (w : World Live) (b : B) (w' : World Live)
      → follow f (r, w) ≡ (ok b, w')
      → ((a : A) → r ≡ ok a → f a w ≡ (ok b, w') → P)
      → P
  unfolding follow
  after_lift f (ok a) w b w' h rest = rest a refl h
  after_lift f (err e) w b w' h rest = absurd (cc)

  -- A call whose outcome is kept as a value.
  pub after_attempt :
      (f : Result A → Exec Live B) (p : Result A × World Live) (b : B) (w' : World Live)
      → follow f (ok p.0, p.1) ≡ (ok b, w')
      → ((r : Result A) (v : World Live) → p ≡ (r, v) → f r v ≡ (ok b, w') → P)
      → P
  unfolding follow
  after_attempt f (r, v) b w' h rest = rest r v refl h

module _ {ℓ} {Live A : Type 0} {P : Type ℓ} where
  -- A test that was passed.
  pub after_test :
      (test : Bool) (k : Kind) (m : String) (f : Exec Live A) (w : World Live) (a : A)
      (w' : World Live)
      → follow (λ (_ : Unit {0}). f) (refuse_if test k m w) ≡ (ok a, w')
      → (test ≡ false → f w ≡ (ok a, w') → P)
      → P
  unfolding follow
  after_test true k m f w a w' h rest = absurd (cc)
  after_test false k m f w a w' h rest = rest refl h

  -- A requirement that was met.
  pub after_guard :
      (test : Bool) (k : Kind) (m : String) (f : Exec Live A) (w : World Live) (a : A)
      (w' : World Live)
      → follow (λ (_ : Unit {0}). f) (refuse_if (not test) k m w) ≡ (ok a, w')
      → (test ≡ true → f w ≡ (ok a, w') → P)
      → P
  unfolding follow
  after_guard true k m f w a w' h rest = rest refl h
  after_guard false k m f w a w' h rest = absurd (cc)

module _ {Live A : Type 0} where
  after_handler-raises :
      (e : Exception) (q : Result (Unit {0}) × World Live) (a : A) (w' : World Live)
      → after_handler e q ≡ (ok a, w')
      → ⊥
  after_handler-raises e (ok u, v) a w' h = cc h
  after_handler-raises e (err x, v) a w' h = cc h

  handled_returns :
      (handle : Exception → Exec Live (Unit {0})) (p : Result A × World Live) (a : A)
      (w' : World Live)
      → handled handle p ≡ (ok a, w')
      → p ≡ (ok a, w')
  handled_returns handle (ok b, v) a w' h = h
  handled_returns handle (err e, v) a w' h = absurd (after_handler-raises e (handle e v) a w' h)

  -- A `try` that has returned has not run its handler.
  pub error_returns :
      (m : Exec Live A) (handle : Exception → Exec Live (Unit {0})) (w w' : World Live) (a : A)
      → on_error m handle w ≡ (ok a, w')
      → m w ≡ (ok a, w')
  unfolding on_error
  error_returns m handle w w' a h = handled_returns handle (m w) a w' h

  checked_returns :
      (r : Checked) (body : Exec Live A) (w w' : World Live) (a : A)
      → locked_by r body w ≡ (ok a, w')
      → body w ≡ (ok a, w')
  checked_returns (ok u) body w w' a h = h
  checked_returns (err e) body w w' a h = absurd (cc h)

  pub locked_returns :
      (lab : String) (body : Exec Live A) (w w' : World Live) (a : A)
      → locked lab body w ≡ (ok a, w')
      → body w ≡ (ok a, w')
  unfolding locked
  locked_returns lab body w w' a h = checked_returns (check_lab lab) body w w' a h

  pub pure_returns :
      (a b : A) (w w' : World Live)
      → ◌≡◌ {A = Result A × World Live} (ok a, w) (ok b, w')
      → (a ≡ b) × (w ≡ w')
  pure_returns a b w w' h = ground arith

  pub lift_returns :
      (r : Result A) (b : A) (w w' : World Live)
      → ◌≡◌ {A = Result A × World Live} (r, w) (ok b, w')
      → (r ≡ ok b) × (w ≡ w')
  lift_returns r b w w' h = (ap (λ p. p.0) h, ap (λ p. p.1) h)
