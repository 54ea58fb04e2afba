-- ===== src/Lab/Store/Rebuilt.antt =====
-- The operations of a scenario keep a constructed state constructed.
use cks_simulator.Common.{
  ◌≡◌, refl, inl, inr, String, true, some, length, eq_iff, is_canonical_uuid, ok, arith,
}
use cks_simulator.Lab.Phase.{degraded, scenario_prepared}
use cks_simulator.Lab.State.{ActiveScenario, JournalEntry, LabState, phase, construct}
use cks_simulator.Lab.State.Constructed.{construct-append, active-baseline, degraded_fits, rebuilt}
use cks_simulator.Lab.Store.{Change, replace, appended, advance}
use cks_simulator.Lab.Store.Steps.{Op, attest, prepare, restore, advance_to, change, final}
use cks_simulator.Lab.Store.Success.{Builds, attest_inv, prepare_inv, restore_inv, advance_inv}

-- The operations that `ScenarioEngine` calls.
abbrev pub IsScenarioOp : Op → Type 0
IsScenarioOp (attest health now) = Unit
IsScenarioOp (prepare plan now) = Unit
IsScenarioOp (restore request now) = Unit
IsScenarioOp (advance_to target now) = Unit
IsScenarioOp _ = ⊥

Builds-construct :
    (s u : LabState) (c : Change)
    → construct s ≡ ok s
    → u.identity ≡ s.identity
    → u.inventory ≡ s.inventory
    → u.observations ≡ s.observations
    → Builds u c
    → construct (final c) ≡ ok (final c)
Builds-construct s u c built identity inventory observations done =
    let (t, whole, eq) = done in
    let same : t ≡ u = rebuilt s u t built whole identity inventory observations in
    rw (eq, same) (rw same at whole)

pub change-construct :
    (op : Op) (id : String) (s : LabState) (c : Change)
    → IsScenarioOp op
    → construct s ≡ ok s
    → change op id s ≡ ok c
    → construct (final c) ≡ ok (final c)
unfolding change
change-construct (attest health now) id s c _ built h = elim (attest_inv id s c health now h) [
  | inl kept ↦ rw kept built
  | inr (inl done) ↦ Builds-construct s _ c built refl refl refl done
  | inr (inr (ready, done)) ↦ Builds-construct s _ c built refl refl refl done
]
change-construct (prepare plan now) id s c _ built h =
    let (ready, (health, known, idle, (a, active, done))) = prepare_inv id s c plan now h in
    Builds-construct s _ c built refl refl refl done
change-construct (restore request now) id s c _ built h =
    Builds-construct s _ c built refl refl refl (restore_inv id s c request now h).1
change-construct (advance_to target now) id s c _ built h =
    Builds-construct s _ c built refl refl refl (advance_inv id s c target now h).2
change-construct _ id s c impossible built h = absurd impossible

-- The lab with one more entry, degraded.
abbrev pub degraded_lab : LabState → String → LabState
degraded_lab s now = record s { journal = appended s degraded now }

-- A prepared lab can always be degraded, and its attempt stays on record.
module _ (s : LabState) (a : ActiveScenario) (now : String) (built : construct s ≡ ok s)
    (held : phase s ≡ scenario_prepared) (active : s.active_scenario ≡ some a) where
  degraded-construct : construct (degraded_lab s now) ≡ ok (degraded_lab s now)
  degraded-construct =
      let entry : JournalEntry = record {
        sequence = length s.journal;
        phase = degraded;
        recorded_at = now;
      } in
      construct-append s entry s.active_scenario built refl (rw held refl)
        (rw (active, active-baseline s s a built active) (degraded_fits a))

  pub degrade_succeeds :
      is_canonical_uuid s.identity.lab_id ≡ true
      → advance degraded now s.identity.lab_id s ≡ ok (replace (degraded_lab s now))
  unfolding advance
  degrade_succeeds canonical =
      ground (arith, degraded-construct, eq_iff s.identity.lab_id s.identity.lab_id)
