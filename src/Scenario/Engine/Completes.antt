-- ===== src/Scenario/Engine/Completes.antt =====
-- What a grade and a restore that return have done, whatever the handlers do to the world.
use cks_simulator.Common.{◌≡◌, refl, String, true, some, none, Option, eq_iff, ok, arith}
use cks_simulator.LiveGrading.{LiveGrade, evaluate_live_grade}
use cks_simulator.Lab.Phase.{scenario_prepared, validated}
use cks_simulator.Lab.State.{ActiveScenario, LabState, phase}
use cks_simulator.Lab.Store.{load}
use cks_simulator.Lab.Store.Steps.{change}
use cks_simulator.Lab.Store.Scenario.{Held}
use cks_simulator.Lab.Store.Written.{restore_written}
use cks_simulator.Scenario.Definition.{FullScenarioDefinition, require}
use cks_simulator.Scenario.Monad.{World}
use cks_simulator.Scenario.Registry.{
  ScenarioContext, scenario_context, Handler, GradeInputs, resolve,
}
use cks_simulator.Scenario.Returns.{
  after_call, after_lift, after_test, after_guard, lift_returns, error_returns, locked_returns,
}
use cks_simulator.Scenario.Probe.{Engine, collect}
use cks_simulator.Scenario.Probe.Reads.{Unmoved, collect-Unmoved}
use cks_simulator.Scenario.Engine.{
  is_attempt_of, graded_once, grade_locked, grade, restored, restore_active, restore_locked,
  restore,
}
use cks_simulator.Scenario.Engine.Stored.{store-Applied}
use cks_simulator.Scenario.Engine.Success.{Attempted}

pub attempt_of :
    (d : FullScenarioDefinition) (s : LabState)
    → is_attempt_of d s.active_scenario ≡ true
    → (a : ActiveScenario) × Attempted d a s
attempt_of d s h = go s.active_scenario refl h
  where
    go :
        (o : Option ActiveScenario)
        → s.active_scenario ≡ o
        → is_attempt_of d o ≡ true
        → (a : ActiveScenario) × Attempted d a s
    go none e k = absurd (cc k)
    go (some a) e k = (
      a,
      ground
          (arith, eq_iff a.scenario_id d.scenario_id, eq_iff a.handler_identity d.handler_identity),
    )

module _ {Live : Type 0} (engine : Engine Live) (lab : String) (d : FullScenarioDefinition) where
  -- The grade is that of evidence collected on the prepared lab, which the collection has not moved.
  pub record Graded (g : LiveGrade) (w w' : World Live) : Type 0 where
    pub state : LabState
    pub attempt : ActiveScenario
    pub attempted : Attempted d attempt state
    pub prepared : phase state ≡ scenario_prepared
    pub unmoved : Unmoved engine lab state w w'
    pub handler : Handler Live
    pub resolved : resolve d engine.handlers ≡ ok handler
    pub inputs : GradeInputs
    pub collected : collect engine lab state handler d w ≡ (ok inputs, w')
    pub evaluated : evaluate_live_grade inputs.expected inputs.evidence inputs.signals ≡ ok g

  grade_locked-Graded :
      (g : LiveGrade) (w w' : World Live) → grade_locked engine lab d w ≡ (ok g, w') → Graded g w w'
  unfolding grade_locked graded_once
  grade_locked-Graded g w w' done = after_lift _ _ _ _ _ done λ s found r0.
      after_test _ _ _ _ _ _ _ r0 λ held r1.
        after_lift _ _ _ _ _ (error_returns _ _ _ _ _ r1) λ h resolved r2.
          after_call _ _ _ _ r2 λ inputs w1 collected r3.
            let (evaluated, here) = lift_returns _ _ _ _ r3 in
            let (a, attempted) = attempt_of d s (ground arith) in
            record {
              state = s;
              attempt = a;
              attempted = attempted;
              prepared = ground arith;
              unmoved = collect-Unmoved engine lab s h d w w' inputs (rw (← here) collected);
              handler = h;
              resolved = resolved;
              inputs = inputs;
              collected = rw (← here) collected;
              evaluated = evaluated;
            }

  -- The lab is validated without a scenario, on the health that was attested behind the mutation
  -- that was observed to have the restore fingerprint of the attempt.
  pub record Restored (t : LabState) (w w' : World Live) : Type 0 where
    pub state : LabState
    pub attempt : ActiveScenario
    pub found : load engine.namespace lab w.labs ≡ ok state
    pub attempted : Attempted d attempt state
    pub held : Held state
    pub handler : Handler Live
    pub resolved : resolve d engine.handlers ≡ ok handler
    pub ctx : ScenarioContext
    pub context_of : scenario_context lab state ≡ ok ctx
    pub mutated_world : World Live
    pub mutated : handler.restore ctx d w ≡ (ok attempt.restore_fingerprint, mutated_world)
    pub health : String
    pub attested_world : World Live
    pub attested : engine.attest_health ctx mutated_world ≡ (ok health, attested_world)
    pub loaded : load engine.namespace lab w'.labs ≡ ok t
    pub validated_again : phase t ≡ validated
    pub idle : t.active_scenario ≡ none
    pub baseline : t.health_fingerprint ≡ some health

  restored-Restored :
      (s t : LabState) (a : ActiveScenario) (w w' : World Live)
      → load engine.namespace lab w.labs ≡ ok s
      → Attempted d a s
      → Held s
      → restored engine lab d s a w ≡ (ok t, w')
      → Restored t w w'
  unfolding restored change
  restored-Restored s t a w w' found attempted held done = after_lift _ _ _ _ _ done λ ctx named r0.
      after_lift _ _ _ _ _ r0 λ h resolved r1. after_call _ _ _ _ r1 λ observed w1 mutated r2.
        after_guard _ _ _ _ _ _ _ r2 λ same r3. after_call _ _ _ _ r3 λ health w2 attested r4.
          after_call _ _ _ _ r4 λ now w3 read r5.
            let it = store-Applied _ _ _ _ _ _ _ r5 in
            let (validated_phase, known, free) =
              restore_written s.identity.lab_id now it.before it.outcome
                (record {
                  scenario_id = d.scenario_id;
                  attempt_id = a.attempt_id;
                  health_fingerprint = health;
                  scenario_fingerprint = observed;
                })
                it.applied in
            record {
              state = s;
              attempt = a;
              found = found;
              attempted = attempted;
              held = held;
              handler = h;
              resolved = resolved;
              ctx = ctx;
              context_of = named;
              mutated_world = w1;
              mutated = rw (← (eq_iff observed a.restore_fingerprint).0 same) mutated;
              health = health;
              attested_world = w2;
              attested = attested;
              loaded = it.loaded;
              validated_again = rw it.returned validated_phase;
              idle = rw it.returned free;
              baseline = rw it.returned known;
            }

  restore_active-Restored :
      (s t : LabState) (o : Option ActiveScenario) (w w' : World Live)
      → load engine.namespace lab w.labs ≡ ok s
      → s.active_scenario ≡ o
      → restore_active engine lab d s o w ≡ (ok t, w')
      → Restored t w w'
  unfolding restore_active
  restore_active-Restored s t none w w' found active done = absurd (cc done)
  restore_active-Restored s t (some a) w w' found active done =
      after_test _ _ _ _ _ _ _ done λ held r0.
        restored-Restored s t a w w' found
          (ground (
            arith,
            eq_iff a.scenario_id d.scenario_id,
            eq_iff a.handler_identity d.handler_identity,
          ))
          (ground arith) (error_returns _ _ _ _ _ r0)

  restore_locked-Restored :
      (t : LabState) (w w' : World Live)
      → restore_locked engine lab d w ≡ (ok t, w')
      → Restored t w w'
  unfolding restore_locked
  restore_locked-Restored t w w' done =
      after_lift _ _ _ _ _ done
        λ s found r0. restore_active-Restored s t s.active_scenario w w' found refl r0

module _ {Live : Type 0} (engine : Engine Live) (lab scenario_id : String) where
  -- A grade that returns is that of evidence collected on a lab prepared for the scenario, whose
  -- file and whose attested health are the same after the grade as before.
  pub grade-Graded :
      (g : LiveGrade) (w w' : World Live)
      → grade engine lab scenario_id w ≡ (ok g, w')
      → (d : FullScenarioDefinition) × (require scenario_id engine.catalog ≡ ok d)
        × Graded engine lab d g w w'
  unfolding grade
  grade-Graded g w w' done = after_lift _ _ _ _ _ done λ d known r0.
      (d, known, grade_locked-Graded engine lab d g w w' (locked_returns _ _ _ _ _ r0))

  -- A restore that returns was of an attempt of the scenario on a prepared or degraded lab; its
  -- mutation was observed to have the restore fingerprint of the attempt, and the state that it
  -- returns is what the lab's file holds at the end: validated, without a scenario, on the health
  -- that was attested behind the mutation.
  pub restore-Restored :
      (t : LabState) (w w' : World Live)
      → restore engine lab scenario_id w ≡ (ok t, w')
      → (d : FullScenarioDefinition) × (require scenario_id engine.catalog ≡ ok d)
        × Restored engine lab d t w w'
  unfolding restore
  restore-Restored t w w' done = after_lift _ _ _ _ _ done λ d known r0.
      (d, known, restore_locked-Restored engine lab d t w w' (locked_returns _ _ _ _ _ r0))
