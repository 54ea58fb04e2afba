-- ===== src/Scenario/Monad.antt =====
-- The world that the scenario and exam engines act on, and the actions: a call of a method, which
-- returns or raises. What was changed before a raise stays changed.
use cks_simulator.Common.{
  ℕ, suc, String, Bool, true, if◌then◌else◌, Kind, Exception, Result, ok, err, Checked,
}
use cks_simulator.Exam.Base.{Instant}
use cks_simulator.Exam.Store
use cks_simulator.Lab.State.{LabState}
use cks_simulator.Lab.Store.{Disk, load, mutate, check_lab}
use cks_simulator.Lab.Store.Steps.{Op, change, check_arguments}

-- The files of the labs and of the exams, the live machines (of an unknown type), the flag of
-- `state_write_prohibited`, and the readings of the clock and of `uuid4` that are still to come.
pub record World (Live : Type 0) : Type 0 where
  pub labs : Disk
  pub exams : Store.Disk
  pub live : Live
  pub writes_prohibited : Bool
  pub clock : ℕ → String
  pub instants : ℕ → Instant
  pub drawn : ℕ → String
  pub ticks : ℕ

abbrev pub Exec : Type 0 → Type 0 → Type 0
Exec Live A = World Live → Result A × World Live

module _ {Live A : Type 0} where
  abbrev pub pure : A → Exec Live A
  pure a w = (ok a, w)

  abbrev pub throw : Exception → Exec Live A
  throw e w = (err e, w)

  abbrev pub fault : Kind → String → Exec Live A
  fault k m = throw (record { kind = k; message = m })

  abbrev pub lift : Result A → Exec Live A
  lift r w = (r, w)

  -- `with state_write_prohibited():`, which puts the flag back in every case.
  unfoldable pub write_prohibited : Exec Live A → Exec Live A
  write_prohibited m w =
      let (r, w') = m (record w { writes_prohibited = true }) in
      (r, record w' { writes_prohibited = w.writes_prohibited })

  abbrev pub after_handler : Exception → Result (Unit {0}) × World Live → Result A × World Live
  after_handler e (ok _, w) = (err e, w)
  after_handler e (err e', w) = (err e', w)

  abbrev pub handled :
      (Exception → Exec Live (Unit {0})) → Result A × World Live → Result A × World Live
  handled handle (ok a, w) = (ok a, w)
  handled handle (err e, w) = after_handler e (handle e w)

  -- `except BaseException as error: handle(error); raise`
  unfoldable pub on_error : Exec Live A → (Exception → Exec Live (Unit {0})) → Exec Live A
  on_error m handle w = handled handle (m w)

  -- The outcome as a value: `primary_error` is the error that `try` has kept.
  abbrev pub attempt : Exec Live A → Exec Live (Result A)
  attempt m w = let (r, w') = m w in (ok r, w')

-- The statements behind a call that has returned or raised.
unfoldable pub follow :
    {Live A B : Type 0} → (A → Exec Live B) → Result A × World Live → Result B × World Live
follow f (ok a, w) = f a w
follow f (err e, w) = (err e, w)

infixl 5 ◌>>=◌ ◌>>◌
abbrev pub ◌>>=◌ : {Live A B : Type 0} → Exec Live A → (A → Exec Live B) → Exec Live B
◌>>=◌ m f w = follow f (m w)

abbrev pub ◌>>◌ : {Live B : Type 0} → Exec Live (Unit {0}) → Exec Live B → Exec Live B
m >> k = m >>= λ _. k

module _ {Live : Type 0} where
  abbrev pub refuse_if : Bool → Kind → String → Exec Live (Unit {0})
  refuse_if test k m w = (if test then err (record { kind = k; message = m }) else ok tt, w)

  -- `str(uuid.uuid4())`
  abbrev pub uuid4 : Exec Live String
  uuid4 w = (ok (w.drawn w.ticks), record w { ticks = suc w.ticks })

  -- `datetime.now(timezone.utc)`, as text in a state and as an instant in a session.
  abbrev pub now_text : Exec Live String
  now_text w = (ok (w.clock w.ticks), record w { ticks = suc w.ticks })

  abbrev pub now_instant : Exec Live Instant
  now_instant w = (ok (w.instants w.ticks), record w { ticks = suc w.ticks })

  module _ (namespace : String) where
    abbrev pub load_lab : String → Exec Live LabState
    load_lab lab w = (load namespace lab w.labs, w)

    -- The end of an operation of the store: its state and the new files, or the exception.
    abbrev pub stored_as : Result (LabState × Disk) → Exec Live LabState
    stored_as (ok (s, disk)) w = (ok s, record w { labs = disk })
    stored_as (err e) w = (err e, w)

    -- An operation of `LabStateStore` on the lab; the state is the one that it returns.
    unfoldable pub store : String → String → Op → Exec Live LabState
    store lab expected_lab_id op w =
        stored_as
          (mutate namespace w.writes_prohibited lab (check_arguments op) (change op expected_lab_id)
            w.labs)
          w

abbrev pub locked_by : {Live A : Type 0} → Checked → Exec Live A → Exec Live A
locked_by (ok _) body w = body w
locked_by (err e) body w = (err e, w)

-- `with store.lock(lab_name):`, which validates the name; the lock itself is the caller's turn.
unfoldable pub locked : {Live A : Type 0} → String → Exec Live A → Exec Live A
locked lab body w = locked_by (check_lab lab) body w
