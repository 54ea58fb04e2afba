-- ===== src/Lab/Store/Scenario.antt =====
-- The one scenario of a lab: prepared on its healthy baseline, and restored to exactly that.
use cks_simulator.Common.{
  ◌≡◌, refl, ◌∙◌, sym, ap, ◌↔◌, ◌⊎◌, inl, String, true, none, some, length, eq_iff,
  is_canonical_uuid, ok, arith,
}
use cks_simulator.Lab.Phase.{validated, scenario_prepared, degraded}
use cks_simulator.Lab.State.{ActiveScenario, JournalEntry, LabState, phase, construct}
use cks_simulator.Lab.State.Constructed.{
  construct-append, last_phase-append, active-baseline, validated_fits, prepared_fits,
  construct_active-eq,
}
use cks_simulator.Lab.Store.{
  Change, replace, appended, ScenarioPlan, RestoreRequest, active_of, prepare_scenario,
  restore_scenario,
}
use cks_simulator.Lab.Store.Success.{prepare_inv}

-- The caller names the lab of the state.
pub record OwnedBy (id : String) (s : LabState) : Type 0 where
  pub canonical : is_canonical_uuid id ≡ true
  pub own : s.identity.lab_id ≡ id

-- The request repeats the active attempt and what it was prepared on.
pub record Matches (request : RestoreRequest) (a : ActiveScenario) : Type 0 where
  pub scenario : a.scenario_id ≡ request.scenario_id
  pub attempt : a.attempt_id ≡ request.attempt_id
  pub health : request.health_fingerprint ≡ a.baseline_fingerprint
  pub fingerprint : request.scenario_fingerprint ≡ a.restore_fingerprint

abbrev pub Held : LabState → Type 0
Held s = (phase s ≡ scenario_prepared) ⊎ (phase s ≡ degraded)

-- The lab back on its baseline, with one more entry.
abbrev pub restored : LabState → String → LabState
restored s now = record s { active_scenario = none; journal = appended s validated now }

module _ (id now : String) (request : RestoreRequest) (s : LabState) (a : ActiveScenario) where
  restore_checks :
      (c : Change)
      → s.active_scenario ≡ some a
      → restore_scenario request now id s ≡ ok c
      → OwnedBy id s × Held s × Matches request a
  unfolding restore_scenario
  restore_checks c active h = ground (
    arith,
    eq_iff s.identity.lab_id id,
    eq_iff a.scenario_id request.scenario_id,
    eq_iff a.attempt_id request.attempt_id,
    eq_iff request.health_fingerprint a.baseline_fingerprint,
    eq_iff request.scenario_fingerprint a.restore_fingerprint,
  )

  restored-construct :
      construct s ≡ ok s
      → s.active_scenario ≡ some a
      → Held s
      → construct (restored s now) ≡ ok (restored s now)
  restored-construct built active held =
      construct-append s
        (record { sequence = length s.journal; phase = validated; recorded_at = now }) none built
        refl (ground arith) (validated_fits s.health_fingerprint)

  restore_succeeds :
      construct s ≡ ok s
      → s.active_scenario ≡ some a
      → OwnedBy id s
      → Held s
      → Matches request a
      → restore_scenario request now id s ≡ ok (replace (restored s now))
  unfolding restore_scenario
  restore_succeeds built active owned held same =
      let health : s.health_fingerprint ≡ some request.health_fingerprint =
        active-baseline s s a built active ∙ ap (λ v. some v) (sym same.health) in
      ground (
        arith,
        restored-construct built active held,
        eq_iff s.identity.lab_id id,
        eq_iff a.scenario_id request.scenario_id,
        eq_iff a.attempt_id request.attempt_id,
        eq_iff request.health_fingerprint a.baseline_fingerprint,
        eq_iff request.scenario_fingerprint a.restore_fingerprint,
      )

  -- On a constructed state with an active scenario a restore succeeds exactly for the caller's
  -- lab, prepared or degraded, with the attempt, the baseline and the restore fingerprint of that
  -- scenario; it then clears the scenario and appends `validated`.
  pub restore_scenario_iff :
      (c : Change)
      → construct s ≡ ok s
      → s.active_scenario ≡ some a
      → (restore_scenario request now id s ≡ ok c)
        ↔ (OwnedBy id s × Held s × Matches request a × (c ≡ replace (restored s now)))
  restore_scenario_iff c built active = (
    (λ h.
        let (owned, held, same) = restore_checks c active h in
        ground (arith, restore_succeeds built active owned held same)),
    (λ h. let (owned, held, same, eq) = h in rw eq (restore_succeeds built active owned held same)),
  )

-- The request that undoes a plan.
abbrev pub undo : ScenarioPlan → String → RestoreRequest
undo plan health = record {
  scenario_id = plan.scenario_id;
  attempt_id = plan.attempt_id;
  health_fingerprint = health;
  scenario_fingerprint = plan.restore_fingerprint;
}

-- The lab with the scenario of the plan prepared.
abbrev pub prepared : LabState → ScenarioPlan → String → String → LabState
prepared s plan health now = record s {
  active_scenario = some (active_of plan health);
  journal = appended s scenario_prepared now;
}

module _ (id now later : String) (plan : ScenarioPlan) (s : LabState) (c : Change) where
  prepare_result :
      construct s ≡ ok s
      → prepare_scenario plan now id s ≡ ok c
      → (health : String) × (s.health_fingerprint ≡ some health)
        × (s.active_scenario ≡ none)
        × (c ≡ replace (prepared s plan health now))
        × (construct (prepared s plan health now) ≡ ok (prepared s plan health now))
  prepare_result built h =
      let (ready, (health, known, idle, (a, active, (t, done, eq)))) =
        prepare_inv id s c plan now h in
      let same : a ≡ active_of plan health = construct_active-eq (active_of plan health) a active in
      let entry : JournalEntry = record {
        sequence = length s.journal;
        phase = scenario_prepared;
        recorded_at = now;
      } in
      let whole : construct (prepared s plan health now) ≡ ok (prepared s plan health now) =
        construct-append s entry (some (active_of plan health)) built refl (rw ready refl)
          (rw known (prepared_fits (active_of plan health))) in
      let it : t ≡ prepared s plan health now = ground arith in
      (health, known, idle, rw eq (ap (λ x. replace x) it), whole)

  prepare_owned : prepare_scenario plan now id s ≡ ok c → OwnedBy id s
  unfolding prepare_scenario
  prepare_owned h = ground (arith, eq_iff s.identity.lab_id id)

  -- What a preparation on a constructed state has written, a restore with the plan's own values
  -- undoes: it succeeds, and its state is the one before but for the two entries of the journal.
  pub prepare-restore :
      construct s ≡ ok s
      → prepare_scenario plan now id s ≡ ok c
      → (health : String) × (t : LabState) × (u : LabState) × (s.health_fingerprint ≡ some health)
        × (c ≡ replace t)
        × (restore_scenario (undo plan health) later id t ≡ ok (replace u))
        × (u ≡ record s { journal = appended t validated later })
  prepare-restore built h =
      let (health, known, idle, eq, whole) = prepare_result built h in
      let owned : OwnedBy id s = prepare_owned h in
      let t : LabState = prepared s plan health now in
      let held : Held t = inl (last_phase-append s.journal _) in
      let back : restore_scenario (undo plan health) later id t ≡ ok (replace (restored t later)) =
        (restore_scenario_iff id later (undo plan health) t (active_of plan health)
            (replace (restored t later)) whole refl).1
          (
            record { canonical = owned.canonical; own = owned.own },
            held,
            record { scenario = refl; attempt = refl; health = refl; fingerprint = refl },
            refl,
          ) in
      (
        health,
        t,
        restored t later,
        known,
        eq,
        back,
        ap (λ o. record s { active_scenario = o; journal = appended t validated later }) (sym idle),
      )
