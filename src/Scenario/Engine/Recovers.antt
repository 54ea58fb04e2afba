-- ===== src/Scenario/Engine/Recovers.antt =====
-- A restore with a handler that does its work brings the lab back.
use cks_simulator.Common.{
  ◌≡◌, refl, ap, sym, inl, inr, suc, String, true, false, not, ◌&&◌, some, eq_iff, is_identifier,
  Result, ok, arith,
}
use mathlib.Core.Path.{subst}
use cks_simulator.Lab.Store.Rebuilt.{change-construct}
use cks_simulator.Scenario.Engine.Stored.{load_renamed}
use cks_simulator.Lab.Phase.{is_prepared, is_degraded}
use cks_simulator.Lab.State.{ActiveScenario, LabState, phase}
use cks_simulator.Lab.Store.{RestoreRequest, replace, stored, put, mutate}
use cks_simulator.Lab.Store.Steps.{restore as restore_op, change, check_arguments}
use cks_simulator.Lab.Store.Scenario.{Held, restored as restored_lab, restore_scenario_iff}
use cks_simulator.Lab.Store.Files.{put_self, load_owned, mutate_writes}
use cks_simulator.Scenario.Definition.{FullScenarioDefinition, require}
use cks_simulator.Scenario.Monad.{World, on_error, handled, locked, stored_as, store}
use cks_simulator.Scenario.Cases.{case_known, case_returned, case_passed}
use cks_simulator.Scenario.Leaves.{SameLabs}
use cks_simulator.Scenario.Registry.{scenario_context, Handler, resolve}
use cks_simulator.Scenario.Probe.{Engine}
use cks_simulator.Scenario.Engine.{
  degrade, is_attempt_of, restored, restore_active, restore_locked, restore,
}
use cks_simulator.Scenario.Engine.Success.{Attempted}
use cks_simulator.Scenario.Lifecycle.Holds.{Holds, Holds-SameLabs}

pub scenario_context_lem :
    (lab : String) (s : LabState)
    → is_identifier lab ≡ true
    → s.identity.lab_name ≡ lab
    → scenario_context lab s ≡ ok (record { lab_name = lab; state = s })
unfolding scenario_context
scenario_context_lem lab s named own = ground (arith, eq_iff s.identity.lab_name lab)

-- The handler restores the scenario of the attempt, and the health is then attested as the
-- baseline of the attempt.
pub record Works {Live : Type 0} (engine : Engine Live) (lab : String) (d : FullScenarioDefinition)
    (s : LabState) (a : ActiveScenario) (w : World Live) : Type 0 where
  pub handler : Handler Live
  pub resolved : resolve d engine.handlers ≡ ok handler
  pub mutated : World Live
  pub attested : World Live
  pub restores :
      handler.restore (record { lab_name = lab; state = s }) d w
      ≡ (ok a.restore_fingerprint, mutated)
  pub attests :
      engine.attest_health (record { lab_name = lab; state = s }) mutated
      ≡ (ok a.baseline_fingerprint, attested)
  pub files : SameLabs w attested

module _ {Live : Type 0} (engine : Engine Live) (lab : String) (d : FullScenarioDefinition)
    (s : LabState) (a : ActiveScenario) (w : World Live) (h : Holds engine.namespace lab s w)
    (held : Held s) (attempt : Attempted d a s) (works : Works engine lab d s a w) where
  abbrev now_read : String
  now_read = works.attested.clock works.attested.ticks

  abbrev request : RestoreRequest
  request = record {
    scenario_id = d.scenario_id;
    attempt_id = a.attempt_id;
    health_fingerprint = a.baseline_fingerprint;
    scenario_fingerprint = a.restore_fingerprint;
  }

  abbrev pub back : LabState
  back = restored_lab s now_read

  abbrev pub back_world : World Live
  back_world = record works.attested {
    labs = put lab (stored back) works.attested.labs;
    ticks = suc works.attested.ticks;
  }

  restore_change : change (restore_op request now_read) s.identity.lab_id s ≡ ok (replace back)
  unfolding change
  restore_change =
      (restore_scenario_iff s.identity.lab_id now_read request s a (replace back) h.built
          attempt.active).1
        (
          record { canonical = h.canonical; own = refl },
          held,
          record { scenario = attempt.scenario; attempt = refl; health = refl; fingerprint = refl },
          refl,
        )

  mutate-back :
      mutate engine.namespace works.attested.writes_prohibited lab
        (check_arguments (restore_op request now_read))
        (change (restore_op request now_read) s.identity.lab_id)
        works.attested.labs
      ≡ ok (back, put lab (stored back) works.attested.labs)
  unfolding check_arguments
  mutate-back =
      let there = Holds-SameLabs engine.namespace lab s w works.attested h works.files in
      rw there.writable (
        mutate_writes engine.namespace lab (change (restore_op request now_read) s.identity.lab_id)
          works.attested.labs s back there.found restore_change)

  store-back :
      store engine.namespace lab s.identity.lab_id
        (restore_op request now_read)
        (record works.attested { ticks = suc works.attested.ticks })
      ≡ (ok back, back_world)
  unfolding store
  store-back =
      ap
        (λ r.
          stored_as engine.namespace r (record works.attested { ticks = suc works.attested.ticks }))
        mutate-back

  restored-back : restored engine lab d s a w ≡ (ok back, back_world)
  unfolding restored
  restored-back =
      let (checked, named, own) = load_owned engine.namespace lab w.labs s h.found in
      let Q : Result LabState × World Live → Type 0 = λ p. p ≡ (ok back, back_world) in
      case_known Q _ _ _ _ (scenario_context_lem lab s named own) (
        case_known Q _ _ _ _ works.resolved (
          case_returned Q _ _ _ _ works.restores (
            case_passed Q _ _ _ _ _
              (ground (arith, eq_iff a.restore_fingerprint a.restore_fingerprint))
              (case_returned Q _ _ _ _ works.attests (case_returned Q _ _ _ _ refl store-back)))))

  is_held : (not (is_prepared (phase s)) && not (is_degraded (phase s))) ≡ false
  is_held = elim held [ inl p ↦ rw p refl | inr g ↦ rw g refl ]

  is_its_attempt : is_attempt_of d (some a) ≡ true
  is_its_attempt = ground (
    arith,
    attempt.scenario,
    attempt.handler,
    eq_iff a.scenario_id d.scenario_id,
    eq_iff a.handler_identity d.handler_identity,
  )

  restore_active-back : restore_active engine lab d s (some a) w ≡ (ok back, back_world)
  unfolding restore_active on_error
  restore_active-back =
      let Q : Result LabState × World Live → Type 0 = λ p. p ≡ (ok back, back_world) in
      case_passed Q _ _ _ _ _ (rw (is_held, is_its_attempt) refl)
        (ap (λ p. handled (degrade engine lab s) p) restored-back)

  restore_locked-back : restore_locked engine lab d w ≡ (ok back, back_world)
  unfolding restore_locked
  restore_locked-back =
      let Q : Result LabState × World Live → Type 0 = λ p. p ≡ (ok back, back_world) in
      case_known Q _ _ s _ h.found (
        subst (λ o. restore_active engine lab d s o w ≡ (ok back, back_world)) (sym attempt.active)
          restore_active-back)

  Holds-back : Holds engine.namespace lab back back_world
  Holds-back = record {
    found =
        load_renamed engine.namespace lab s back w.labs back_world.labs h.found refl
          (put_self lab _ _);
    built =
        change-construct (restore_op request now_read) s.identity.lab_id s (replace back) tt h.built
          restore_change;
    canonical = h.canonical;
    writable = rw works.files.prohibited h.writable;
  }

  -- A restore of a prepared or degraded lab, whose handler restores the scenario of the attempt and
  -- leaves the files, and whose health is then the baseline's, returns the lab on that baseline, and
  -- stores it.
  pub restore_recovers :
      (scenario_id : String)
      → require scenario_id engine.catalog ≡ ok d
      → (restore engine lab scenario_id w ≡ (ok back, back_world))
        × Holds engine.namespace lab back back_world
  unfolding restore locked
  restore_recovers scenario_id known =
      let (checked, named, own) = load_owned engine.namespace lab w.labs s h.found in
      let Q : Result LabState × World Live → Type 0 = λ p. p ≡ (ok back, back_world) in
      (case_known Q _ _ d _ known (rw checked restore_locked-back), Holds-back)
