-- ===== src/Scenario/Probe/Reads.antt =====
-- A probe that has returned has found the lab as it left it, whatever the graders are.
use cks_simulator.Common.{◌≡◌, ap, String, eq_iff, Result, ok, err}
use cks_simulator.Lab.State.{LabState}
use cks_simulator.Lab.State.Equality.{state_eq_iff}
use cks_simulator.Lab.Store.{load}
use cks_simulator.Scenario.Definition.{FullScenarioDefinition}
use cks_simulator.Scenario.Monad.{World}
use cks_simulator.Scenario.Registry.{ScenarioContext, scenario_context, Handler, GradeInputs}
use cks_simulator.Scenario.Returns.{after_call, after_lift, after_attempt, after_guard}
use cks_simulator.Scenario.Probe.{Engine, integrity, or_unattested, collect}

module _ {Live : Type 0} (engine : Engine Live) (lab : String) where
  -- The lab was found in the state, and its health attested as the same, before and after.
  pub record Unmoved (s : LabState) (w w' : World Live) : Type 0 where
    pub ctx : ScenarioContext
    pub health : String
    pub attested : World Live
    pub probed : World Live
    pub context_of : scenario_context lab s ≡ ok ctx
    pub stored_before : load engine.namespace lab w.labs ≡ ok s
    pub stored_after : load engine.namespace lab w'.labs ≡ ok s
    pub health_before : engine.attest_health ctx w ≡ (ok health, attested)
    pub health_after : engine.attest_health ctx probed ≡ (ok health, w')

  integrity_returns :
      (ctx : ScenarioContext) (r : Result (String × LabState)) (w v w' : World Live) (k : String)
      (t : LabState)
      → integrity engine lab ctx w ≡ (r, v)
      → or_unattested engine r v ≡ (ok (k, t), w')
      → (engine.attest_health ctx w ≡ (ok k, w')) × (load engine.namespace lab w'.labs ≡ ok t)
  unfolding integrity or_unattested
  integrity_returns ctx (err e) w v w' k t h u = cc u
  integrity_returns ctx (ok found) w v w' k t h u = after_call _ _ _ _ h λ health x attested r0.
      after_lift _ _ _ _ _ r0 λ after loaded r1. let here : x ≡ w' = cc in (cc, rw (← here) (cc))

  pub collect-Unmoved :
      (s : LabState) (h : Handler Live) (d : FullScenarioDefinition) (w w' : World Live)
      (inputs : GradeInputs)
      → collect engine lab s h d w ≡ (ok inputs, w')
      → Unmoved s w w'
  unfolding collect
  collect-Unmoved s h d w w' inputs done = after_lift _ _ _ _ _ done λ before found r0.
      after_guard _ _ _ _ _ _ _ r0 λ same r1. after_lift _ _ _ _ _ r1 λ ctx named r2.
        after_call _ _ _ _ r2 λ health w2 attested r3.
          after_attempt _ _ _ _ r3 λ outcome w3 tried r4.
            after_attempt _ _ _ _ r4 λ checked w4 looked r5.
              after_call _ _ _ _ r5 λ after w5 told r6. after_guard _ _ _ _ _ _ _ r6 λ kept r7.
                after_guard _ _ _ _ _ _ _ r7 λ alive r8.
                  let same_state : before ≡ s = (state_eq_iff before s).0 same in
                  let kept_state : after.1 ≡ before = (state_eq_iff after.1 before).0 kept in
                  let kept_health : after.0 ≡ health = (eq_iff after.0 health).0 alive in
                  let (health_after, loaded) =
                    integrity_returns ctx checked w3 w4 w5 after.0 after.1 looked told in
                  let last : w5 ≡ w' = ap (λ p. p.1) r8 in
                  record {
                    ctx = ctx;
                    health = health;
                    attested = w2;
                    probed = w3;
                    context_of = rw (← same_state) named;
                    stored_before = rw (← same_state) found;
                    stored_after = rw (← last, ← same_state, ← kept_state) loaded;
                    health_before = attested;
                    health_after = rw (← last, ← kept_health) health_after;
                  }
