-- ===== src/Scenario/Leaves.antt =====
-- Actions that leave the files of the labs as they are, one rule for each way to build an action.
use cks_simulator.Common.{◌≡◌, refl, ◌∙◌, true, Result, ok, err}
use cks_simulator.Scenario.Monad.{World, Exec, follow, attempt, write_prohibited, uuid4, now_text}

pub record SameLabs {Live : Type 0} (w v : World Live) : Type 0 where
  pub labs : v.labs ≡ w.labs
  pub prohibited : v.writes_prohibited ≡ w.writes_prohibited

module _ {Live : Type 0} where
  pub SameLabs-refl : (w : World Live) → SameLabs w w
  SameLabs-refl w = record { labs = refl; prohibited = refl }

  pub SameLabs-trans : {u v w : World Live} → SameLabs u v → SameLabs v w → SameLabs u w
  SameLabs-trans p q = record { labs = q.labs ∙ p.labs; prohibited = q.prohibited ∙ p.prohibited }

pub record Leaves {Live A : Type 0} (m : Exec Live A) : Type 0 where
  pub at : (w : World Live) → SameLabs w (m w).1

module _ {Live A : Type 0} where
  pub Leaves-lift : (r : Result A) → Leaves {A = A} (λ (w : World Live). (r, w))
  Leaves-lift r = record { at = SameLabs-refl }

  -- A computation that may look at the world.
  pub Leaves-ask : (r : World Live → Result A) → Leaves {A = A} (λ (w : World Live). (r w, w))
  Leaves-ask r = record { at = SameLabs-refl }

  pub Leaves-attempt : (m : Exec Live A) → Leaves m → Leaves (attempt m)
  Leaves-attempt m leaves = record { at = λ w. leaves.at w }

  pub Leaves-write_prohibited : (m : Exec Live A) → Leaves m → Leaves (write_prohibited m)
  unfolding write_prohibited
  Leaves-write_prohibited m leaves = record {
    at = λ w. record {
      labs = (leaves.at (record w { writes_prohibited = true })).labs;
      prohibited = refl;
    };
  }

pub Leaves-now_text : {Live : Type 0} → Leaves {Live = Live} now_text
Leaves-now_text = record { at = λ w. record { labs = refl; prohibited = refl } }

pub Leaves-uuid4 : {Live : Type 0} → Leaves {Live = Live} uuid4
Leaves-uuid4 = record { at = λ w. record { labs = refl; prohibited = refl } }

module _ {Live A B : Type 0} where
  SameLabs-follow :
      (f : A → Exec Live B) (p : Result A × World Live) (w : World Live)
      → SameLabs w p.1
      → ((a : A) → Leaves (f a))
      → SameLabs w (follow f p).1
  unfolding follow
  SameLabs-follow f (ok a, v) w same rest = SameLabs-trans same ((rest a).at v)
  SameLabs-follow f (err e, v) w same rest = same

  pub Leaves-bind :
      (m : Exec Live A) (f : A → Exec Live B)
      → Leaves m
      → ((a : A) → Leaves (f a))
      → Leaves (λ w. follow f (m w))
  Leaves-bind m f first rest = record { at = λ w. SameLabs-follow f (m w) w (first.at w) rest }

  SameLabs-lifted :
      (f : A → Exec Live B) (r : Result A) (w : World Live)
      → ((a : A) → r ≡ ok a → Leaves (f a))
      → SameLabs w (follow f (r, w)).1
  unfolding follow
  SameLabs-lifted f (ok a) w rest = (rest a refl).at w
  SameLabs-lifted f (err e) w rest = SameLabs-refl w

  -- The rest may use what has been computed.
  pub Leaves-after :
      (r : Result A) (f : A → Exec Live B)
      → ((a : A) → r ≡ ok a → Leaves (f a))
      → Leaves (λ (w : World Live). follow f (r, w))
  Leaves-after r f rest = record { at = λ w. SameLabs-lifted f r w rest }
