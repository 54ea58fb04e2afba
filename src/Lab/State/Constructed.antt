-- ===== src/Lab/State/Constructed.antt =====
-- What the construction of a `LabState` shows of it.
use cks_simulator.Common.{
  ℕ, suc, ◌+◌, ◌≡◌, refl, ◌∙◌, ap, String, true, Option, none, some, List, [], ◌∷◌, ◌++◌, length,
  eq_iff, ok, arith,
}
use cks_simulator.Lab.Phase.{LabPhase, validated, scenario_prepared, degraded, allowed}
use cks_simulator.Lab.Machine.{MachineObservation}
use cks_simulator.Lab.Machine.Observed.{no_machines}
use cks_simulator.Lab.State.{
  LabIdentity, construct_identity, JournalEntry, ActiveScenario, construct_active, LabState, phase,
  last_phase, check_active, contiguous, transitions_allowed, check_journal, ordered_observations,
  construct,
}

-- The construction changes nothing but the order of the observations.
pub construct_inv :
    (u t : LabState)
    → construct u ≡ ok t
    → (ordered : List MachineObservation) × (ordered_observations u.identity.provider u.inventory
          u.observations
        ≡ ok ordered)
      × (t ≡ record u { observations = ordered })
unfolding construct
construct_inv u t h = ground arith

construct-journal : (u t : LabState) → construct u ≡ ok t → check_journal u.journal ≡ ok tt
unfolding construct
construct-journal u t h = ground arith

-- Without machines there are no observations.
pub unobserved :
    (p : String) (os r : List MachineObservation) → ordered_observations p [] os ≡ ok r → os ≡ []
unfolding ordered_observations
unobserved p [] r h = refl
unobserved p (o ∷ os) r h = absurd (no_machines p (o ∷ os) r h)

-- One more entry of the journal.
contiguous-append :
    (n : ℕ) (js : List JournalEntry) (e : JournalEntry)
    → contiguous n js ≡ true
    → e.sequence ≡ n + length js
    → contiguous n (js ++ e ∷ []) ≡ true
unfolding contiguous
contiguous-append n [] e h place = ground arith
contiguous-append n (j ∷ js) e h place =
    ground (arith, contiguous-append (suc n) js e (ground arith) (omega arith))

transitions-append :
    (p : LabPhase) (j : JournalEntry) (js : List JournalEntry) (e : JournalEntry)
    → transitions_allowed p (j ∷ js) ≡ true
    → allowed (last_phase (j ∷ js)) e.phase ≡ true
    → transitions_allowed p ((j ∷ js) ++ e ∷ []) ≡ true
unfolding transitions_allowed
transitions-append p j [] e h edge = ground arith
transitions-append p j (k ∷ js) e h edge =
    ground (arith, transitions-append j.phase k js e (ground arith) edge)

check_journal-append :
    (js : List JournalEntry) (e : JournalEntry)
    → check_journal js ≡ ok tt
    → e.sequence ≡ length js
    → allowed (last_phase js) e.phase ≡ true
    → check_journal (js ++ e ∷ []) ≡ ok tt
unfolding check_journal transitions_allowed
check_journal-append [] e h place edge = ground arith
check_journal-append (j ∷ []) e h place edge =
    ground (arith, contiguous-append 0 (j ∷ []) e (ground arith) (omega (arith, place)))
check_journal-append (j ∷ k ∷ js) e h place edge = ground (
  arith,
  contiguous-append 0 (j ∷ k ∷ js) e (ground arith) (omega (arith, place)),
  transitions-append j.phase k js e (ground arith) edge,
)

pub last_phase-append :
    (js : List JournalEntry) (e : JournalEntry) → last_phase (js ++ e ∷ []) ≡ e.phase
last_phase-append [] e = refl
last_phase-append (j ∷ []) e = refl
last_phase-append (j ∷ k ∷ js) e = last_phase-append (k ∷ js) e

-- A constructed state is constructed with one more entry, if its active scenario fits the new phase.
pub construct-append :
    (s : LabState) (e : JournalEntry) (active : Option ActiveScenario)
    → construct s ≡ ok s
    → e.sequence ≡ length s.journal
    → allowed (phase s) e.phase ≡ true
    → check_active e.phase active s.health_fingerprint ≡ ok tt
    → construct (record s { active_scenario = active; journal = s.journal ++ e ∷ [] })
      ≡ ok (record s { active_scenario = active; journal = s.journal ++ e ∷ [] })
unfolding construct
construct-append s e active built place edge fits =
    let (os, o, eq) = construct_inv s s built in
    ground (
      arith,
      check_journal-append s.journal e (construct-journal s s built) place edge,
      last_phase-append s.journal e,
    )

-- The active scenario of a constructed state was prepared on its health baseline.
pub active-baseline :
    (s t : LabState) (a : ActiveScenario)
    → construct s ≡ ok t
    → s.active_scenario ≡ some a
    → s.health_fingerprint ≡ some a.baseline_fingerprint
unfolding construct
active-baseline s t a built held = go s.health_fingerprint refl
  where
    go :
        (o : Option String)
        → s.health_fingerprint ≡ o
        → s.health_fingerprint ≡ some a.baseline_fingerprint
    go none e = absurd (ground arith)
    go (some health) e = ground (arith, eq_iff a.baseline_fingerprint health)

-- A validated lab without an active scenario, and a prepared one on its baseline.
pub validated_fits : (health : Option String) → check_active validated none health ≡ ok tt
unfolding check_active
validated_fits health = refl

pub prepared_fits :
    (a : ActiveScenario)
    → check_active scenario_prepared (some a) (some a.baseline_fingerprint) ≡ ok tt
unfolding check_active
prepared_fits a = ground (arith, eq_iff a.baseline_fingerprint a.baseline_fingerprint)

pub degraded_fits :
    (a : ActiveScenario) → check_active degraded (some a) (some a.baseline_fingerprint) ≡ ok tt
unfolding check_active
degraded_fits a = ground (arith, eq_iff a.baseline_fingerprint a.baseline_fingerprint)

pub construct_active-eq : (a b : ActiveScenario) → construct_active a ≡ ok b → b ≡ a
unfolding construct_active
construct_active-eq a b h = ground arith

pub construct_identity-eq : (i j : LabIdentity) → construct_identity i ≡ ok j → j ≡ i
unfolding construct_identity
construct_identity-eq i j h = ground arith

-- A state with the machines and observations of a constructed one is constructed as it stands.
pub rebuilt :
    (s u t : LabState)
    → construct s ≡ ok s
    → construct u ≡ ok t
    → u.identity ≡ s.identity
    → u.inventory ≡ s.inventory
    → u.observations ≡ s.observations
    → t ≡ u
rebuilt s u t built done identity inventory observations =
    let (ps, p, same) = construct_inv s s built in
    let (os, o, whole) = construct_inv u t done in
    let known : os ≡ u.observations = ground arith in
    whole ∙ ap (λ os. record u { observations = os }) known
