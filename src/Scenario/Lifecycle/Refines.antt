-- ===== src/Scenario/Lifecycle/Refines.antt =====
-- The calls of an engine whose handlers leave the files of the labs alone move a lab as the
-- specification says.
use cks_simulator.Common.{
  ◌≡◌, refl, ap, inl, inr, suc, String, Bool, true, false, some, Exception, Result, ok, err, arith,
}
use cks_simulator.Lab.Phase.{scenario_prepared}
use cks_simulator.Lab.State.{ActiveScenario, LabState, phase}
use cks_simulator.Lab.State.Constructed.{last_phase-append}
use cks_simulator.Lab.Store.Rebuilt.{degraded_lab}
use cks_simulator.LiveGrading.{LiveGrade}
use cks_simulator.Scenario.Definition.{FullScenarioDefinition}
use cks_simulator.Scenario.Monad.{World, follow, after_handler}
use cks_simulator.Scenario.Leaves.{Leaves, Leaves-lift, Leaves-bind, Leaves-after}
use cks_simulator.Scenario.Cases.{case_known, case_test, case_try}
use cks_simulator.Scenario.Probe.{Engine}
use cks_simulator.Scenario.Probe.Tame.{AllTame, collect-Leaves}
use cks_simulator.Scenario.Engine.{degrade, grade_locked, graded_once}
use cks_simulator.Scenario.Engine.Completes.{attempt_of}
use cks_simulator.Scenario.Lifecycle.{Stage, running, broken, stage, Call, grading, Spec}
use cks_simulator.Scenario.Lifecycle.Holds.{
  Holds, Holds-SameLabs, store-degraded, Holds-degraded, degraded_world,
}

abbrev pub returns {ℓ} : {A : Type ℓ} → Result A → Bool
returns (ok _) = true
returns (err _) = false

module _ {Live : Type 0} (engine : Engine Live) (lab : String) where
  -- The lab holds a state in the end, at a stage that the call may move it to.
  abbrev pub Outcome : {A : Type 0} → Call → LabState → Result A × World Live → Type 0
  Outcome call s q =
      (t : LabState) × Holds engine.namespace lab t q.1
      × Spec call (returns q.0) (stage s) (stage t)

  -- A degradation of a prepared lab goes through.
  pub degrade_prepared :
      (s : LabState) (a : ActiveScenario) (e : Exception) (w : World Live)
      → Holds engine.namespace lab s w
      → phase s ≡ scenario_prepared
      → s.active_scenario ≡ some a
      → (v : World Live) × (t : LabState) × (degrade engine lab s e w ≡ (ok tt, v))
        × Holds engine.namespace lab t v
        × (stage t ≡ broken (some a))
  unfolding degrade follow
  degrade_prepared s a e w h held active =
      let w1 : World Live = record w { ticks = suc w.ticks } in
      let now : String = w.clock w.ticks in
      let h1 : Holds engine.namespace lab s w1 =
        Holds-SameLabs engine.namespace lab s w w1 h (record { labs = refl; prohibited = refl }) in
      (
        degraded_world engine.namespace lab now s a w1 h1 held active,
        degraded_lab s now,
        rw held (
            ap (λ p. (ok tt, p.1)) (store-degraded engine.namespace lab now s a w1 h1 held active)),
        Holds-degraded engine.namespace lab now s a w1 h1 held active,
        rw (last_phase-append s.journal _) (ap (λ o. broken o) active),
      )

  module _ (s : LabState) (a : ActiveScenario) (w : World Live) (h : Holds engine.namespace lab s w)
      (held : phase s ≡ scenario_prepared) (active : s.active_scenario ≡ some a) where
    pub stage-running : stage s ≡ running a
    stage-running = rw (held, active) refl

    -- The error of a `try` block over a running attempt: the lab is broken, with the attempt.
    pub broken-Outcome :
        (A : Type 0) (e : Exception) (call : Call)
        → ((t : Stage) → t ≡ broken (some a) → Spec call false (running a) t)
        → Outcome {A = A} call s (after_handler e (degrade engine lab s e w))
    broken-Outcome A e call breaks =
        let (v, t, eq, kept, there) = degrade_prepared s a e w h held active in
        rw (eq, stage-running) (t, kept, breaks (stage t) there)

  graded_once-Leaves :
      (d : FullScenarioDefinition) (s : LabState)
      → AllTame engine
      → Leaves (graded_once engine lab d s)
  unfolding graded_once
  graded_once-Leaves d s tame = Leaves-after _ _ λ handler resolved.
      Leaves-bind _ _
        (collect-Leaves engine tame.attests lab s handler d (tame.handlers d handler resolved))
        λ inputs. Leaves-lift _

  pub grade_locked-Outcome :
      (d : FullScenarioDefinition) (s : LabState) (w : World Live)
      → AllTame engine
      → Holds engine.namespace lab s w
      → Outcome grading s (grade_locked engine lab d w)
  unfolding grade_locked
  grade_locked-Outcome d s w tame h =
      let Q = Outcome {A = LiveGrade} grading s in
      case_known Q _ _ s _ h.found (
        case_test Q _ _ _ _ _ (λ e failing. (s, h, inl refl))
          λ held.
            let (a, attempted) = attempt_of d s (ground arith) in
            let prepared : phase s ≡ scenario_prepared = ground arith in
            case_try Q _ _ _ (graded_once-Leaves d s tame)
              (λ g v done same. (
                s,
                Holds-SameLabs engine.namespace lab s w v h same,
                (refl, (a, stage-running s a w h prepared attempted.active)),
              ))
              (λ e v same.
                broken-Outcome s a v (Holds-SameLabs engine.namespace lab s w v h same) prepared
                  attempted.active LiveGrade e grading (λ t there. inr (a, refl, there))))
