-- ===== src/Scenario/Cases.antt =====
-- How a proof about every outcome of an action goes through it, one statement after the other.
use cks_simulator.Common.{
  ◌≡◌, refl, String, Bool, true, false, Kind, Exception, Result, Checked, ok, err,
}
use cks_simulator.Lab.Store.{check_lab}
use cks_simulator.Scenario.Monad.{
  World, Exec, follow, after_handler, handled, on_error, refuse_if, locked_by, locked,
}
use cks_simulator.Scenario.Leaves.{SameLabs, Leaves}

module _ {Live A B : Type 0} (Q : Result B × World Live → Type 0) where
  pub case_call :
      (f : A → Exec Live B) (p : Result A × World Live)
      → ((e : Exception) (v : World Live) → p ≡ (err e, v) → Q (err e, v))
      → ((a : A) (v : World Live) → p ≡ (ok a, v) → Q (f a v))
      → Q (follow f p)
  unfolding follow
  case_call f (ok a, v) failing rest = rest a v refl
  case_call f (err e, v) failing rest = failing e v refl

  -- A computation that leaves the world.
  pub case_lift :
      (f : A → Exec Live B) (r : Result A) (w : World Live)
      → ((e : Exception) → r ≡ err e → Q (err e, w))
      → ((a : A) → r ≡ ok a → Q (f a w))
      → Q (follow f (r, w))
  unfolding follow
  case_lift f (ok a) w failing rest = rest a refl
  case_lift f (err e) w failing rest = failing e refl

  -- A computation whose value is known.
  pub case_known :
      (f : A → Exec Live B) (r : Result A) (a : A) (w : World Live)
      → r ≡ ok a
      → Q (f a w)
      → Q (follow f (r, w))
  unfolding follow
  case_known f r a w known rest = rw known rest

  -- A call whose outcome is known.
  pub case_returned :
      (f : A → Exec Live B) (p : Result A × World Live) (a : A) (v : World Live)
      → p ≡ (ok a, v)
      → Q (f a v)
      → Q (follow f p)
  unfolding follow
  case_returned f p a v known rest = rw known rest

  -- A call of which a postcondition is known.
  pub case_post :
      (P : Result A × World Live → Type 0) (f : A → Exec Live B) (p : Result A × World Live)
      → P p
      → ((e : Exception) (v : World Live) → P (err e, v) → Q (err e, v))
      → ((a : A) (v : World Live) → P (ok a, v) → Q (f a v))
      → Q (follow f p)
  unfolding follow
  case_post P f (ok a, v) post failing rest = rest a v post
  case_post P f (err e, v) post failing rest = failing e v post

  case_leaving :
      (f : A → Exec Live B) (p : Result A × World Live) (w : World Live)
      → SameLabs w p.1
      → ((e : Exception) (v : World Live) → SameLabs w v → Q (err e, v))
      → ((a : A) (v : World Live) → SameLabs w v → Q (f a v))
      → Q (follow f p)
  unfolding follow
  case_leaving f (ok a, v) w same failing rest = rest a v same
  case_leaving f (err e, v) w same failing rest = failing e v same

  -- A call that leaves the files of the labs.
  pub case_tame :
      (f : A → Exec Live B) (m : Exec Live A) (w : World Live)
      → Leaves m
      → ((e : Exception) (v : World Live) → SameLabs w v → Q (err e, v))
      → ((a : A) (v : World Live) → SameLabs w v → Q (f a v))
      → Q (follow f (m w))
  case_tame f m w leaves failing rest = case_leaving f (m w) w (leaves.at w) failing rest

module _ {Live B : Type 0} (Q : Result B × World Live → Type 0) where
  pub case_test :
      (f : Exec Live B) (test : Bool) (k : Kind) (m : String) (w : World Live)
      → ((e : Exception) → test ≡ true → Q (err e, w))
      → (test ≡ false → Q (f w))
      → Q (follow (λ (_ : Unit {0}). f) (refuse_if test k m w))
  unfolding follow
  case_test f true k m w failing rest = failing _ refl
  case_test f false k m w failing rest = rest refl

  pub case_passed :
      (f : Exec Live B) (test : Bool) (k : Kind) (m : String) (w : World Live)
      → test ≡ false
      → Q (f w)
      → Q (follow (λ (_ : Unit {0}). f) (refuse_if test k m w))
  unfolding follow
  case_passed f test k m w passed rest = rw passed rest

  case_handled :
      (handle : Exception → Exec Live (Unit {0})) (p : Result B × World Live) (w : World Live)
      → ((b : B) (v : World Live) → p ≡ (ok b, v) → Q (ok b, v))
      → ((e : Exception) (v : World Live) → p ≡ (err e, v) → Q (after_handler e (handle e v)))
      → Q (handled handle p)
  case_handled handle (ok b, v) w returning failing = returning b v refl
  case_handled handle (err e, v) w returning failing = failing e v refl

  case_kept :
      (handle : Exception → Exec Live (Unit {0})) (p : Result B × World Live) (w : World Live)
      → SameLabs w p.1
      → ((b : B) (v : World Live) → p ≡ (ok b, v) → SameLabs w v → Q (ok b, v))
      → ((e : Exception) (v : World Live) → SameLabs w v → Q (after_handler e (handle e v)))
      → Q (handled handle p)
  case_kept handle (ok b, v) w same returning failing = returning b v refl same
  case_kept handle (err e, v) w same returning failing = failing e v same

  -- A `try` block that leaves the files of the labs.
  pub case_try :
      (m : Exec Live B) (handle : Exception → Exec Live (Unit {0})) (w : World Live)
      → Leaves m
      → ((b : B) (v : World Live) → m w ≡ (ok b, v) → SameLabs w v → Q (ok b, v))
      → ((e : Exception) (v : World Live) → SameLabs w v → Q (after_handler e (handle e v)))
      → Q (on_error m handle w)
  unfolding on_error
  case_try m handle w leaves returning failing =
      case_kept handle (m w) w (leaves.at w) returning failing

  pub case_error :
      (m : Exec Live B) (handle : Exception → Exec Live (Unit {0})) (w : World Live)
      → ((b : B) (v : World Live) → m w ≡ (ok b, v) → Q (ok b, v))
      → ((e : Exception) (v : World Live) → m w ≡ (err e, v) → Q (after_handler e (handle e v)))
      → Q (on_error m handle w)
  unfolding on_error
  case_error m handle w returning failing = case_handled handle (m w) w returning failing

  case_checked :
      (r : Checked) (body : Exec Live B) (w : World Live)
      → ((e : Exception) → Q (err e, w))
      → Q (body w)
      → Q (locked_by r body w)
  case_checked (ok u) body w failing rest = rest
  case_checked (err e) body w failing rest = failing e

  pub case_locked :
      (lab : String) (body : Exec Live B) (w : World Live)
      → ((e : Exception) → Q (err e, w))
      → Q (body w)
      → Q (locked lab body w)
  unfolding locked
  case_locked lab body w failing rest = case_checked (check_lab lab) body w failing rest
