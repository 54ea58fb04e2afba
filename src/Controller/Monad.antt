-- ===== src/Controller/Monad.antt =====
-- cks_simulator/exam_server.py: the state that a request of `StoredExamController` runs on.
-- A request on the world: the stored sessions, the clock, and the calls made to the graders.
use cks_simulator.Common.{
  ℕ, suc, String, Bool, true, false, List, [], ◌∷◌, ◌++◌, if◌then◌else◌, Kind, Exception, Result,
  ok, err,
}
use cks_simulator.Exam.Base.{Instant}
use cks_simulator.Exam.Store.{Disk}

-- A call of code outside the controller.
pub data Event : Type 0 where
  submission_started graded_all : Event
  graded_task : String → Event

pub record World : Type 0 where
  pub disk : Disk
  pub clock : ℕ → Instant
  pub ticks : ℕ
  pub events : List Event

-- What was written before a raise stays written.
abbrev pub Exec : Type 0 → Type 0
Exec A = World → Result A × World

module _ {A : Type 0} where
  abbrev pub pure : A → Exec A
  pure a w = (ok a, w)

  abbrev pub throw : Exception → Exec A
  throw e w = (err e, w)

  abbrev pub lift : Result A → Exec A
  lift r w = (r, w)

  -- A call of a parameter, which may look at the world and does not change the sessions.
  abbrev pub ask : (World → Result A) → Exec A
  ask f w = (f w, w)

  abbrev pub catch : Exec A → (Exception → Exec A) → Exec A
  catch m handle w = let (r, w') = m w in elim r [ ok a ↦ (ok a, w') | err e ↦ handle e w' ]

infixl 5 ◌>>=◌ ◌>>◌
abbrev pub ◌>>=◌ : {A B : Type 0} → Exec A → (A → Exec B) → Exec B
◌>>=◌ m f w = let (r, w') = m w in elim r [ ok a ↦ f a w' | err e ↦ (err e, w') ]

abbrev pub ◌>>◌ : {B : Type 0} → Exec (Unit {0}) → Exec B → Exec B
m >> k = m >>= λ _. k

abbrev pub refuse_if : Bool → Kind → String → Exec (Unit {0})
refuse_if test k m w = (if test then err (record { kind = k; message = m }) else ok tt, w)

abbrev pub when : Bool → Exec (Unit {0}) → Exec (Unit {0})
when true m = m
when false m = pure tt

abbrev pub utc_now : Exec Instant
utc_now w = (ok (w.clock w.ticks), record w { ticks = suc w.ticks })

abbrev pub note : Event → Exec (Unit {0})
note e w = (ok tt, record w { events = w.events ++ e ∷ [] })

-- The end of a save: the new disk, or the exception.
abbrev pub written : Result Disk → Exec (Unit {0})
written (ok disk) w = (ok tt, record w { disk = disk })
written (err e) w = (err e, w)
