-- ===== src/Scenario/Lifecycle/Restores.antt =====
-- A restore of an engine whose handlers leave the files of the labs alone.
use cks_simulator.Common.{
  ◌≡◌, refl, ap, ◌⊎◌, inl, inr, String, none, some, Option, Exception, Result, arith,
}
use cks_simulator.Lab.Phase.{degraded}
use cks_simulator.Lab.State.{ActiveScenario, LabState, phase}
use cks_simulator.Lab.Store.Steps.{change}
use cks_simulator.Lab.Store.Scenario.{Held}
use cks_simulator.Lab.Store.Written.{restore_written}
use cks_simulator.Scenario.Definition.{FullScenarioDefinition}
use cks_simulator.Scenario.Monad.{World, handled, after_handler, on_error}
use cks_simulator.Scenario.Leaves.{SameLabs, SameLabs-refl, SameLabs-trans, Leaves-now_text}
use cks_simulator.Scenario.Cases.{case_known, case_lift, case_tame, case_test}
use cks_simulator.Scenario.Probe.{Engine}
use cks_simulator.Scenario.Probe.Tame.{AllTame}
use cks_simulator.Scenario.Engine.{degrade, restored, restore_active, restore_locked}
use cks_simulator.Scenario.Lifecycle.{running, broken, stage, restoring}
use cks_simulator.Scenario.Lifecycle.Holds.{Holds, Holds-SameLabs, store_case}
use cks_simulator.Scenario.Lifecycle.Refines.{Outcome, broken-Outcome}

module _ {Live : Type 0} (engine : Engine Live) (lab : String) (tame : AllTame engine) where
  -- The handler over a lab that is degraded already leaves it.
  still_broken :
      (s : LabState) (e : Exception) (w : World Live)
      → Holds engine.namespace lab s w
      → phase s ≡ degraded
      → Outcome engine lab {A = LabState} restoring s (after_handler e (degrade engine lab s e w))
  unfolding degrade
  still_broken s e w h gone = rw gone (s, h, inl (rw gone refl))

  failed-Outcome :
      (s : LabState) (a : ActiveScenario) (e : Exception) (w : World Live)
      → Held s
      → s.active_scenario ≡ some a
      → Holds engine.namespace lab s w
      → Outcome engine lab {A = LabState} restoring s (after_handler e (degrade engine lab s e w))
  failed-Outcome s a e w (inl held) active h =
      broken-Outcome engine lab s a w h held active LabState e restoring
        (λ t there. inr (a, refl, there))
  failed-Outcome s a e w (inr gone) active h = still_broken s e w h gone

  stage-Held :
      (s : LabState) (a : ActiveScenario)
      → Held s
      → s.active_scenario ≡ some a
      → (stage s ≡ running a) ⊎ (stage s ≡ broken (some a))
  stage-Held s a (inl held) active = inl (rw (held, active) refl)
  stage-Held s a (inr gone) active = inr (rw gone (ap (λ o. broken o) active))

  restored-Outcome :
      (d : FullScenarioDefinition) (s : LabState) (a : ActiveScenario) (w : World Live)
      → Holds engine.namespace lab s w
      → Held s
      → s.active_scenario ≡ some a
      → Outcome engine lab restoring s
          (handled (degrade engine lab s) (restored engine lab d s a w))
  unfolding restored change
  restored-Outcome d s a w h held active =
      let Q : Result LabState × World Live → Type 0 =
        λ p. Outcome engine lab restoring s (handled (degrade engine lab s) p) in
      let kept = λ (v : World Live) (same : SameLabs w v).
        Holds-SameLabs engine.namespace lab s w v h same in
      let failing = λ (e : Exception) (v : World Live) (same : SameLabs w v).
        failed-Outcome s a e v held active (kept v same) in
      case_lift Q _ _ _ (λ e _. failing e w (SameLabs-refl w))
        λ ctx named.
          case_lift Q _ _ _ (λ e _. failing e w (SameLabs-refl w))
            λ handler resolved.
              case_tame Q _ _ _ ((tame.handlers d handler resolved).restores ctx d) failing
                λ observed w1 s1.
                  case_test Q _ _ _ _ _ (λ e _. failing e w1 s1)
                    λ fits.
                      case_tame Q _ _ _ (tame.attests ctx)
                        (λ e v same. failing e v (SameLabs-trans s1 same))
                        λ health w2 s2.
                          case_tame Q _ _ _ Leaves-now_text
                            (λ e v same. failing e v (SameLabs-trans s1 (SameLabs-trans s2 same)))
                            λ now w3 s3.
                              let s' : SameLabs w w3 = SameLabs-trans s1 (SameLabs-trans s2 s3) in
                              store_case engine.namespace lab _ s w3 tt (kept w3 s') Q
                                (λ e. failing e w3 s')
                                λ t c v applied eq there.
                                  let (again, known, idle) =
                                    restore_written s.identity.lab_id now s c _ applied in
                                  (t, there, (rw (eq, again) refl, (a, stage-Held s a held active)))

  restore_active-Outcome :
      (d : FullScenarioDefinition) (s : LabState) (o : Option ActiveScenario) (w : World Live)
      → Holds engine.namespace lab s w
      → s.active_scenario ≡ o
      → Outcome engine lab restoring s (restore_active engine lab d s o w)
  unfolding restore_active on_error
  restore_active-Outcome d s none w h active = (s, h, inl refl)
  restore_active-Outcome d s (some a) w h active =
      case_test (Outcome engine lab restoring s) _ _ _ _ _ (λ e _. (s, h, inl refl))
        λ held. restored-Outcome d s a w h (ground arith) active

  pub restore_locked-Outcome :
      (d : FullScenarioDefinition) (s : LabState) (w : World Live)
      → Holds engine.namespace lab s w
      → Outcome engine lab restoring s (restore_locked engine lab d w)
  unfolding restore_locked
  restore_locked-Outcome d s w h =
      case_known (Outcome engine lab restoring s) _ _ s _ h.found
        (restore_active-Outcome d s s.active_scenario w h refl)
