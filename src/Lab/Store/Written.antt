-- ===== src/Lab/Store/Written.antt =====
-- The scenario of the state that a preparation, a restore or a degradation gives.
use cks_simulator.Common.{◌≡◌, refl, ap, ◌∙◌, ◌⊎◌, inl, inr, String, none, some, ok}
use cks_simulator.Lab.Phase.{LabPhase, validated, scenario_prepared, candidate_ready}
use cks_simulator.Lab.State.{LabState, phase, last_phase}
use cks_simulator.Lab.State.Constructed.{construct_inv, last_phase-append, construct_active-eq}
use cks_simulator.Lab.Store.{
  Change, appended, ScenarioPlan, RestoreRequest, active_of, prepare_scenario, restore_scenario,
  advance, attest_validated,
}
use cks_simulator.Lab.Store.Steps.{final}
use cks_simulator.Lab.Store.Success.{Builds, attest_inv, prepare_inv, restore_inv, advance_inv}

-- What is built keeps the journal, the health and the scenario.
record Kept (u t : LabState) : Type 0 where
  same_journal : t.journal ≡ u.journal
  same_health : t.health_fingerprint ≡ u.health_fingerprint
  same_scenario : t.active_scenario ≡ u.active_scenario

Builds-Kept : (u : LabState) (c : Change) → Builds u c → Kept u (final c)
Builds-Kept u c built =
    let (t, done, eq) = built in
    let (os, o, whole) = construct_inv u t done in
    rw (eq, whole) (record { same_journal = refl; same_health = refl; same_scenario = refl })

last_phase-appended :
    (s t : LabState) (target : LabPhase) (now : String)
    → t.journal ≡ appended s target now
    → phase t ≡ target
last_phase-appended s t target now eq = rw eq (last_phase-append s.journal _)

module _ (id now : String) (s : LabState) (c : Change) where
  pub prepare_written :
      (plan : ScenarioPlan)
      → prepare_scenario plan now id s ≡ ok c
      → (phase (final c) ≡ scenario_prepared)
        × ((health : String) × ((final c).health_fingerprint ≡ some health)
            × ((final c).active_scenario ≡ some (active_of plan health)))
  prepare_written plan h =
      let (ready, (health, known, idle, (a, active, built))) = prepare_inv id s c plan now h in
      let kept = Builds-Kept _ c built in
      (
        last_phase-appended s (final c) scenario_prepared now kept.same_journal,
        (
          health,
          kept.same_health ∙ known,
          kept.same_scenario
              ∙ ap (λ x. some x) (construct_active-eq (active_of plan health) a active),
        ),
      )

  pub restore_written :
      (request : RestoreRequest)
      → restore_scenario request now id s ≡ ok c
      → (phase (final c) ≡ validated)
        × ((final c).health_fingerprint ≡ some request.health_fingerprint)
        × ((final c).active_scenario ≡ none)
  restore_written request h =
      let (held, built) = restore_inv id s c request now h in
      let kept = Builds-Kept _ c built in
      (
        last_phase-appended s (final c) validated now kept.same_journal,
        kept.same_health,
        kept.same_scenario,
      )

  pub advance_written :
      (target : LabPhase)
      → advance target now id s ≡ ok c
      → (phase (final c) ≡ target)
        × ((final c).health_fingerprint ≡ s.health_fingerprint)
        × ((final c).active_scenario ≡ s.active_scenario)
  advance_written target h =
      let (plain, edge, built) = advance_inv id s c target now h in
      let kept = Builds-Kept _ c built in
      (
        last_phase-appended s (final c) target now kept.same_journal,
        kept.same_health,
        kept.same_scenario,
      )

  -- An attestation leaves the phase and the scenario, or ends the candidate's preparation.
  pub attest_written :
      (health : String)
      → attest_validated health now id s ≡ ok c
      → ((phase (final c) ≡ phase s) × ((final c).active_scenario ≡ s.active_scenario))
        ⊎ ((phase s ≡ candidate_ready) × (phase (final c) ≡ validated))
  attest_written health h = elim (attest_inv id s c health now h) [
    | inl kept ↦ inl (rw kept (refl, refl))
    | inr (inl built) ↦
        let kept = Builds-Kept _ c built in
        inl (ap (λ js. last_phase js) kept.same_journal, kept.same_scenario)
    | inr (inr (ready, built)) ↦
        let kept = Builds-Kept _ c built in
        inr (ready, last_phase-appended s (final c) validated now kept.same_journal)
  ]
