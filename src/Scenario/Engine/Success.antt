-- ===== src/Scenario/Engine/Success.antt =====
-- What a call of the engine that returns has done, whatever the handlers do to the world.
use cks_simulator.Common.{◌≡◌, refl, ap, sym, ◌∙◌, String, some, eq_iff, ok, arith}
use cks_simulator.LiveGrading.{GradeStatus, LiveGrade, evaluate_live_grade}
use cks_simulator.Lab.Phase.{scenario_prepared}
use cks_simulator.Lab.State.{ActiveScenario, LabState, phase}
use cks_simulator.Lab.Store.{load, active_of}
use cks_simulator.Lab.Store.Steps.{change}
use cks_simulator.Lab.Store.Written.{prepare_written}
use cks_simulator.Scenario.Definition.{FullScenarioDefinition, require}
use cks_simulator.Scenario.Monad.{World}
use cks_simulator.Scenario.Registry.{
  ScenarioContext, scenario_context, Handler, GradeInputs, resolve,
}
use cks_simulator.Scenario.Returns.{
  after_call, after_lift, after_guard, pure_returns, error_returns, locked_returns,
}
use cks_simulator.Scenario.Probe.{Engine, collect}
use cks_simulator.Scenario.Probe.Reads.{collect-Unmoved}
use cks_simulator.Scenario.Engine.{plan_of, unsolved, claim_attempt, prepare_locked, prepare}
use cks_simulator.Scenario.Engine.Stored.{store-Applied}

-- The state holds an attempt of the scenario.
pub record Attempted (d : FullScenarioDefinition) (a : ActiveScenario) (t : LabState) : Type 0 where
  pub active : t.active_scenario ≡ some a
  pub scenario : a.scenario_id ≡ d.scenario_id
  pub handler : a.handler_identity ≡ d.handler_identity

module _ {Live : Type 0} (engine : Engine Live) (lab : String) (d : FullScenarioDefinition) where
  pub record Claimed (s t : LabState) (prepared_fingerprint : String) (w w' : World Live)
      : Type 0 where
    pub attempt : ActiveScenario
    pub attempted : Attempted d attempt t
    pub prepared : phase t ≡ scenario_prepared
    pub fingerprint : attempt.prepared_fingerprint ≡ prepared_fingerprint
    pub loaded : load engine.namespace lab w'.labs ≡ ok t

  claim_attempt-Claimed :
      (h : Handler Live) (s t : LabState) (fingerprint : String) (w w' : World Live)
      → claim_attempt engine lab h d s w ≡ (ok (fingerprint, t), w')
      → Claimed s t fingerprint w w'
  unfolding claim_attempt change
  claim_attempt-Claimed h s t fingerprint w w' done =
      after_call _ _ _ _ done λ attempt_id w1 drawn r0. after_lift _ _ _ _ _ r0 λ ctx named r1.
        after_lift _ _ _ _ _ r1 λ prepared expected r2. after_lift _ _ _ _ _ r2 λ _ canonical r3.
          after_lift _ _ _ _ _ r3 λ restored expected' r4.
            after_lift _ _ _ _ _ r4 λ _ canonical' r5. after_call _ _ _ _ r5 λ now w2 read r6.
              after_call _ _ _ _ r6 λ claimed w3 stored r7.
                let (same_pair, done_at) = pure_returns _ _ _ _ r7 in
                let same : claimed ≡ t = ap (λ p. p.1) same_pair in
                let it = store-Applied _ _ _ _ _ _ _ stored in
                let (prepared_phase, (health, known, active)) =
                  prepare_written s.identity.lab_id now it.before it.outcome
                    (plan_of engine d attempt_id prepared restored) it.applied in
                record {
                  attempt = active_of (plan_of engine d attempt_id prepared restored) health;
                  attempted = record {
                    active = rw (← same, it.returned) active;
                    scenario = refl;
                    handler = refl;
                  };
                  prepared = rw (← same, it.returned) prepared_phase;
                  fingerprint = ap (λ p. p.0) same_pair;
                  loaded = rw (← done_at, ← same) it.loaded;
                }

  -- The lab is prepared for an attempt of the scenario, the mutation was observed to have the
  -- fingerprint of the attempt, and the grade of the untouched scenario is FAIL.
  pub record Prepared (t : LabState) (w' : World Live) : Type 0 where
    pub attempt : ActiveScenario
    pub attempted : Attempted d attempt t
    pub prepared : phase t ≡ scenario_prepared
    pub loaded : load engine.namespace lab w'.labs ≡ ok t
    pub handler : Handler Live
    pub resolved : resolve d engine.handlers ≡ ok handler
    pub ctx : ScenarioContext
    pub context_of : scenario_context lab t ≡ ok ctx
    pub claimed_world : World Live
    pub mutated_world : World Live
    pub mutated :
        handler.prepare ctx d claimed_world ≡ (ok attempt.prepared_fingerprint, mutated_world)
    pub inputs : GradeInputs
    pub collected : collect engine lab t handler d mutated_world ≡ (ok inputs, w')
    pub untouched : LiveGrade
    pub graded : evaluate_live_grade inputs.expected inputs.evidence inputs.signals ≡ ok untouched
    pub failing : untouched.status ≡ GradeStatus.fail

  unsolved-Prepared :
      (h : Handler Live) (s t u : LabState) (fingerprint : String) (v w w' : World Live)
      → resolve d engine.handlers ≡ ok h
      → Claimed s t fingerprint v w
      → unsolved engine lab h d fingerprint t w ≡ (ok u, w')
      → (u ≡ t) × Prepared t w'
  unfolding unsolved
  unsolved-Prepared h s t u fingerprint v w w' resolved claimed done =
      after_lift _ _ _ _ _ done λ ctx named r0. after_call _ _ _ _ r0 λ observed w1 mutated r1.
        after_guard _ _ _ _ _ _ _ r1 λ same r2. after_call _ _ _ _ r2 λ inputs w2 collected r3.
          after_lift _ _ _ _ _ r3 λ grade graded r4. after_guard _ _ _ _ _ _ _ r4 λ failing r5.
            let (back, here) = pure_returns _ _ _ _ r5 in
            let fits : observed ≡ claimed.attempt.prepared_fingerprint =
              (eq_iff observed fingerprint).0 same ∙ sym claimed.fingerprint in
            let unmoved = collect-Unmoved engine lab t h d w1 w2 inputs collected in
            (
              sym back,
              record {
                attempt = claimed.attempt;
                attempted = claimed.attempted;
                prepared = claimed.prepared;
                loaded = rw (← here) unmoved.stored_after;
                handler = h;
                resolved = resolved;
                ctx = ctx;
                context_of = named;
                claimed_world = w;
                mutated_world = w1;
                mutated = rw (← fits) mutated;
                inputs = inputs;
                collected = rw (← here) collected;
                untouched = grade;
                graded = graded;
                failing = ground arith;
              },
            )

  pub prepare_locked-Prepared :
      (t : LabState) (w w' : World Live)
      → prepare_locked engine lab d w ≡ (ok t, w')
      → Prepared t w'
  unfolding prepare_locked
  prepare_locked-Prepared t w w' done = after_lift _ _ _ _ _ done λ found loaded r0.
      after_call _ _ _ _ r0 λ s w1 attested r1. after_guard _ _ _ _ _ _ _ r1 λ ready r2.
        after_lift _ _ _ _ _ r2 λ h resolved r3. after_call _ _ _ _ r3 λ claim w2 claimed r4.
          let tried = error_returns _ _ _ _ _ r4 in
          let (same, it) =
            unsolved-Prepared h s claim.1 t claim.0 w1 w2 w' resolved
              (claim_attempt-Claimed h s claim.1 claim.0 w1 w2 claimed) tried in
          rw same it

-- A preparation that returns has found a supported scenario of the catalog; the state that it
-- returns is what the lab's file holds at the end, prepared for an attempt of that scenario, whose
-- mutation was observed to have the claimed fingerprint, and whose untouched grade is FAIL.
pub prepare-Prepared :
    {Live : Type 0} (engine : Engine Live) (lab scenario_id : String) (t : LabState)
    (w w' : World Live)
    → prepare engine lab scenario_id w ≡ (ok t, w')
    → (d : FullScenarioDefinition) × (require scenario_id engine.catalog ≡ ok d)
      × (d.support ≡ "supported")
      × Prepared engine lab d t w'
unfolding prepare
prepare-Prepared engine lab scenario_id t w w' done = after_lift _ _ _ _ _ done λ d known r0.
    after_guard _ _ _ _ _ _ _ r0 λ supported r1. (
      d,
      known,
      (eq_iff d.support "supported").0 supported,
      prepare_locked-Prepared engine lab d t w w' (locked_returns _ _ _ _ _ r1),
    )
