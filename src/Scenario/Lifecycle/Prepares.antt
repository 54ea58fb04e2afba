-- ===== src/Scenario/Lifecycle/Prepares.antt =====
-- A preparation of an engine whose handlers leave the files of the labs alone.
use cks_simulator.Common.{
  ◌≡◌, refl, sym, ◌∙◌, ◌⊎◌, inl, inr, String, false, some, Result, ok, err, Bool-cases, arith,
}
use cks_simulator.Lab.Phase.{scenario_prepared, validated}
use cks_simulator.Lab.State.{ActiveScenario, LabState, phase}
use cks_simulator.Lab.Store.{Change, active_of}
use cks_simulator.Lab.Store.Steps.{attest, change, final}
use cks_simulator.Lab.Store.Written.{prepare_written, attest_written}
use cks_simulator.Scenario.Definition.{FullScenarioDefinition}
use cks_simulator.Scenario.Monad.{World}
use cks_simulator.Scenario.Leaves.{
  SameLabs, SameLabs-trans, Leaves, Leaves-lift, Leaves-bind, Leaves-now_text, Leaves-uuid4,
}
use cks_simulator.Scenario.Cases.{case_known, case_lift, case_tame, case_test, case_try, case_post}
use cks_simulator.Scenario.Registry.{Handler}
use cks_simulator.Scenario.Probe.{Engine}
use cks_simulator.Scenario.Probe.Tame.{IsTame, AllTame, collect-Leaves}
use cks_simulator.Scenario.Engine.{
  needs_baseline, attested_baseline, claim_attempt, plan_of, unsolved, prepare_locked,
}
use cks_simulator.Scenario.Lifecycle.{ready, unready, stage, preparing, Spec, IsOpen}
use cks_simulator.Scenario.Lifecycle.Holds.{Holds, Holds-SameLabs, store_case}
use cks_simulator.Scenario.Lifecycle.Refines.{Outcome, stage-running, degrade_prepared}

module _ {Live : Type 0} (engine : Engine Live) (lab : String) (tame : AllTame engine) where
  unsolved-Leaves :
      (d : FullScenarioDefinition) (h : Handler Live) (fingerprint : String) (s : LabState)
      → IsTame h
      → Leaves (unsolved engine lab h d fingerprint s)
  unfolding unsolved
  unsolved-Leaves d h fingerprint s gentle = Leaves-bind _ _ (Leaves-lift _) λ ctx.
      Leaves-bind _ _ (gentle.prepares ctx d) λ observed. Leaves-bind _ _ (Leaves-lift _) λ _.
        Leaves-bind _ _ (collect-Leaves engine tame.attests lab s h d gentle) λ inputs.
          Leaves-bind _ _ (Leaves-lift _)
            λ result. Leaves-bind _ _ (Leaves-lift _) λ _. Leaves-lift _

  -- The lab behind the attestation of its baseline: at the same stage, or ready now.
  abbrev Baseline : LabState → LabState → Type 0
  Baseline s t = (stage t ≡ stage s) ⊎ ((stage s ≡ unready) × (stage t ≡ ready))

  abbrev Based : LabState → Result LabState × World Live → Type 0
  Based s (err e, v) = Holds engine.namespace lab s v
  Based s (ok t, v) = Holds engine.namespace lab t v × Baseline s t

  attest-Baseline :
      (health now : String) (s : LabState) (c : Change)
      → change (attest health now) s.identity.lab_id s ≡ ok c
      → Baseline s (final c)
  unfolding change
  attest-Baseline health now s c h = elim (attest_written s.identity.lab_id now s c health h) [
    | inl (same, kept) ↦ inl (rw (same, kept) refl)
    | inr (before, after) ↦ inr (rw before refl, rw after refl)
  ]

  attested_baseline-Based :
      (s : LabState) (w : World Live)
      → Holds engine.namespace lab s w
      → Based s (attested_baseline engine lab s w)
  unfolding attested_baseline
  attested_baseline-Based s w h = elim (Bool-cases (needs_baseline engine s)) [
    | inl needed ↦ rw needed (
        case_tame (Based s) _ _ _ (Leaves-bind _ _ (Leaves-lift _) λ ctx. tame.attests ctx)
          (λ e v same. Holds-SameLabs engine.namespace lab s w v h same)
          λ health w1 s1.
            case_tame (Based s) _ _ _ Leaves-now_text
              (λ e v same. Holds-SameLabs engine.namespace lab s w v h (SameLabs-trans s1 same))
              λ now w2 s2.
                let h2 : Holds engine.namespace lab s w2 =
                  Holds-SameLabs engine.namespace lab s w w2 h (SameLabs-trans s1 s2) in
                store_case engine.namespace lab (attest health now) s w2 tt h2 (Based s) (λ e. h2)
                  λ t c v applied eq there. (there, rw eq (attest-Baseline health now s c applied)))
    | inr known ↦ rw known (h, inl refl)
  ]

  -- The lab behind the claim of an attempt.
  abbrev ClaimedLab : LabState → World Live → Type 0
  ClaimedLab t v =
      Holds engine.namespace lab t v
      × ((a : ActiveScenario) × (phase t ≡ scenario_prepared) × (t.active_scenario ≡ some a))

  abbrev Stored : LabState → Result LabState × World Live → Type 0
  Stored s (err e, v) = Holds engine.namespace lab s v
  Stored s (ok t, v) = ClaimedLab t v

  abbrev Claimed : LabState → Result (String × LabState) × World Live → Type 0
  Claimed s (err e, v) = Holds engine.namespace lab s v
  Claimed s (ok (fingerprint, t), v) = ClaimedLab t v

  claim_attempt-Claimed :
      (d : FullScenarioDefinition) (handler : Handler Live) (s : LabState) (w : World Live)
      → Holds engine.namespace lab s w
      → Claimed s (claim_attempt engine lab handler d s w)
  unfolding claim_attempt change
  claim_attempt-Claimed d handler s w h =
      let Q : Result (String × LabState) × World Live → Type 0 = Claimed s in
      let kept = λ (v : World Live) (same : SameLabs w v).
        Holds-SameLabs engine.namespace lab s w v h same in
      case_tame Q _ _ _ Leaves-uuid4 (λ e v same. kept v same)
        λ attempt_id w1 s1.
          case_lift Q _ _ _ (λ e _. kept w1 s1)
            λ ctx named.
              case_lift Q _ _ _ (λ e _. kept w1 s1)
                λ prepared expected.
                  case_lift Q _ _ _ (λ e _. kept w1 s1)
                    λ _ canonical.
                      case_lift Q _ _ _ (λ e _. kept w1 s1)
                        λ restored expected'.
                          case_lift Q _ _ _ (λ e _. kept w1 s1)
                            λ _ canonical'.
                              case_tame Q _ _ _ Leaves-now_text
                                (λ e v same. kept v (SameLabs-trans s1 same))
                                λ now w2 s2.
                                  let h2 : Holds engine.namespace lab s w2 =
                                    kept w2 (SameLabs-trans s1 s2) in
                                  case_post Q (Stored s) _ _
                                    (store_case engine.namespace lab _ s w2 tt h2 (Stored s)
                                      (λ e. h2)
                                      λ t c v applied eq there.
                                        let (ready_phase, (health, known, active)) =
                                          prepare_written s.identity.lab_id now s c
                                            (plan_of engine d attempt_id prepared restored)
                                            applied in
                                        (
                                          there,
                                          (
                                            active_of
                                                (plan_of engine d attempt_id prepared restored)
                                                health,
                                            rw eq ready_phase,
                                            rw eq active,
                                          ),
                                        ))
                                    (λ e v kept_lab. kept_lab) (λ t v claimed. claimed)

  -- The moves of a call that fails before its claim, and behind it.
  Baseline-Spec : (s t : LabState) → Baseline s t → Spec preparing false (stage s) (stage t)
  Baseline-Spec s t (inl same) = inl same
  Baseline-Spec s t (inr moved) = inr (inl moved)

  Baseline-IsOpen : (s t : LabState) → Baseline s t → stage t ≡ ready → IsOpen (stage s)
  Baseline-IsOpen s t (inl same) there = inl (sym same ∙ there)
  Baseline-IsOpen s t (inr (before, after)) there = inr before

  pub prepare_locked-Outcome :
      (d : FullScenarioDefinition) (s : LabState) (w : World Live)
      → Holds engine.namespace lab s w
      → Outcome engine lab preparing s (prepare_locked engine lab d w)
  unfolding prepare_locked
  prepare_locked-Outcome d s w h =
      let Q : Result LabState × World Live → Type 0 = Outcome engine lab preparing s in
      case_known Q _ _ s _ h.found (
        case_post Q (Based s) _ _ (attested_baseline-Based s w h) (λ e v kept. (s, kept, inl refl))
          λ t w1 (h1, base).
            let spec = Baseline-Spec s t base in
            case_test Q _ _ _ _ _ (λ e _. (t, h1, spec))
              λ valid.
                let validated_phase : phase t ≡ validated = ground arith in
                let open_stage : IsOpen (stage s) =
                  Baseline-IsOpen s t base (rw validated_phase refl) in
                case_lift Q _ _ _ (λ e _. (t, h1, spec))
                  λ handler resolved.
                    case_post Q (Claimed t) _ _ (claim_attempt-Claimed d handler t w1 h1)
                      (λ e v kept. (t, kept, spec))
                      λ claim w2 claimed.
                        let (h2, (a, held, active)) = claimed in
                        case_try Q _ _ _
                          (unsolved-Leaves d handler claim.0 claim.1
                            (tame.handlers d handler resolved))
                          (λ u v done same. (
                            claim.1,
                            Holds-SameLabs engine.namespace lab claim.1 w2 v h2 same,
                            (open_stage, (a, stage-running engine lab claim.1 a w2 h2 held active)),
                          ))
                          (λ e v same.
                            let (x, u, eq, kept, there) =
                              degrade_prepared engine lab claim.1 a e v
                                (Holds-SameLabs engine.namespace lab claim.1 w2 v h2 same) held
                                active in
                            rw eq (u, kept, inr (inr (open_stage, (a, there))))))
