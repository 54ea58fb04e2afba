-- ===== src/Lab/Store/Journal.antt =====
-- Every operation on a lab keeps what is immutable, and walks the graph of the phases.
use cks_simulator.Common.{
  ◌≡◌, ◌≢◌, refl, ◌⊎◌, inl, inr, String, true, List, [], ◌∷◌, length, ok, arith,
}
use cks_simulator.Lab.Phase.{LabPhase, validated, scenario_prepared, graded, destroyed, allowed}
use cks_simulator.Lab.Machine.{ProviderMachine, MachineObservation}
use cks_simulator.Lab.State.{LabState, phase, construct}
use cks_simulator.Lab.State.Constructed.{construct_inv, unobserved}
use cks_simulator.Lab.Store.{
  Change, appended, or_normalized, ScenarioPlan, RestoreRequest, declare_inventory,
  bind_provisioning_spec, bind_provisioning_profile, record_machine_observations, attest_validated,
  prepare_scenario, restore_scenario, advance, recover_verified_phase,
}
use cks_simulator.Lab.Store.Success.{
  declare_inv, bind_spec_inv, bind_profile_inv, observe_inv, attest_inv, prepare_inv, restore_inv,
  advance_inv, recover_inv,
}
use cks_simulator.Lab.Store.Steps.{
  Op, declare, bind_spec, bind_profile, observe, attest, prepare, restore, advance_to, recover,
  change, final, Grows, Moves, Moves-construct, Kept-refl, KeptList-refl, Moves-refl,
}

-- A constructed state with the two lists, the two bindings and the identity of the one before.
module _ (s u t : LabState) (built : construct s ≡ ok s) (done : construct u ≡ ok t) where
  Moves-same :
      u.identity ≡ s.identity
      → u.inventory ≡ s.inventory
      → u.observations ≡ s.observations
      → u.provisioning_profile ≡ s.provisioning_profile
      → u.provisioning_spec_sha256 ≡ s.provisioning_spec_sha256
      → Grows s.journal u.journal
      → Moves s t
  Moves-same i inventory o p q j =
      Moves-construct s u t built done i (rw inventory (KeptList-refl s.inventory))
        (inl (inventory, o)) (rw p (Kept-refl s.provisioning_profile))
        (rw q (Kept-refl s.provisioning_spec_sha256)) j

-- One entry along an allowed transition.
appended-Grows :
    (s : LabState) (target : LabPhase) (now : String)
    → allowed (phase s) target ≡ true
    → target ≢ graded
    → Grows s.journal (appended s target now)
appended-Grows s target now edge other = inr (
  record { sequence = length s.journal; phase = target; recorded_at = now },
  refl,
  refl,
  edge,
  other,
)

or_normalized-kept : (os ps : List MachineObservation) → (or_normalized os ps ≡ os) ⊎ (os ≡ [])
or_normalized-kept [] ps = inr refl
or_normalized-kept (o ∷ os) ps = inl refl

module _ (id : String) (s : LabState) (c : Change) (built : construct s ≡ ok s) where
  Moves-declare :
      (inventory : List ProviderMachine)
      → declare_inventory inventory id s ≡ ok c
      → Moves s (final c)
  Moves-declare inventory h =
      let (fresh, (t, done, eq)) = declare_inv id s c inventory h in
      let (os, o, same) = construct_inv s s built in
      let none_seen : s.observations ≡ [] =
        unobserved s.identity.provider s.observations os (rw (← fresh) o) in
      rw eq (
        Moves-construct s _ t built done refl (rw fresh tt) (inr none_seen)
          (Kept-refl s.provisioning_profile) (Kept-refl s.provisioning_spec_sha256) (inl refl))

  Moves-bind_spec : (spec : String) → bind_provisioning_spec spec id s ≡ ok c → Moves s (final c)
  Moves-bind_spec spec h = elim (bind_spec_inv id s c spec h) [
    | inl kept ↦ rw kept (Moves-refl s)
    | inr (unbound, (t, done, eq)) ↦ rw eq (
        Moves-construct s _ t built done refl (KeptList-refl s.inventory) (inl (refl, refl))
          (Kept-refl s.provisioning_profile) (rw unbound tt) (inl refl))
  ]

  Moves-bind_profile :
      (profile : String) → bind_provisioning_profile profile id s ≡ ok c → Moves s (final c)
  Moves-bind_profile profile h = elim (bind_profile_inv id s c profile h) [
    | inl kept ↦ rw kept (Moves-refl s)
    | inr (unbound, (t, done, eq)) ↦ rw eq (
        Moves-construct s _ t built done refl (KeptList-refl s.inventory) (inl (refl, refl))
          (rw unbound tt) (Kept-refl s.provisioning_spec_sha256) (inl refl))
  ]

  Moves-observe :
      (observations : List MachineObservation)
      → record_machine_observations observations id s ≡ ok c
      → Moves s (final c)
  Moves-observe observations h = elim (observe_inv id s c observations h) [
    | inl kept ↦ rw kept (Moves-refl s)
    | inr (unseen, (os, valid, (t, done, eq))) ↦ rw eq (
        Moves-construct s _ t built done refl (KeptList-refl s.inventory) (inr unseen)
          (Kept-refl s.provisioning_profile) (Kept-refl s.provisioning_spec_sha256) (inl refl))
  ]

  Moves-attest : (health now : String) → attest_validated health now id s ≡ ok c → Moves s (final c)
  Moves-attest health now h = elim (attest_inv id s c health now h) [
    | inl kept ↦ rw kept (Moves-refl s)
    | inr (inl (t, done, eq)) ↦
        rw eq (Moves-same s _ t built done refl refl refl refl refl (inl refl))
    | inr (inr (ready, (t, done, eq))) ↦ rw eq (
        Moves-same s _ t built done refl refl refl refl refl
          (appended-Grows s validated now (rw ready refl) (λ e. cc e)))
  ]

  Moves-prepare :
      (plan : ScenarioPlan) (now : String)
      → prepare_scenario plan now id s ≡ ok c
      → Moves s (final c)
  Moves-prepare plan now h =
      let (ready, (health, known, idle, (a, active, (t, done, eq)))) =
        prepare_inv id s c plan now h in
      rw eq (
        Moves-same s _ t built done refl refl refl refl refl
          (appended-Grows s scenario_prepared now (rw ready refl) (λ e. cc e)))

  Moves-restore :
      (request : RestoreRequest) (now : String)
      → restore_scenario request now id s ≡ ok c
      → Moves s (final c)
  Moves-restore request now h =
      let (source, (t, done, eq)) = restore_inv id s c request now h in
      let edge : allowed (phase s) validated ≡ true = ground arith in
      rw eq (
        Moves-same s _ t built done refl refl refl refl refl
          (appended-Grows s validated now edge (λ e. cc e)))

  Moves-advance :
      (target : LabPhase) (now : String) → advance target now id s ≡ ok c → Moves s (final c)
  Moves-advance target now h =
      let (plain, edge, (t, done, eq)) = advance_inv id s c target now h in
      rw eq (
        Moves-same s _ t built done refl refl refl refl refl
          (appended-Grows s target now edge (λ e. ground arith)))

  Moves-recover :
      (target : LabPhase) (os : List MachineObservation) (now : String)
      → recover_verified_phase target os now id s ≡ ok c
      → Moves s (final c)
  Moves-recover target os now h =
      let (verified, broken, (ps, valid, (t, done, eq))) = recover_inv id s c target os now h in
      let edge : allowed (phase s) target ≡ true = ground arith in
      let kept : ((s.inventory ≡ s.inventory) × (or_normalized s.observations ps ≡ s.observations))
          ⊎ (s.observations ≡ []) =
        ground (arith, or_normalized-kept s.observations ps) in
      rw eq (
        Moves-construct s _ t built done refl (KeptList-refl s.inventory) kept
          (Kept-refl s.provisioning_profile) (Kept-refl s.provisioning_spec_sha256)
          (appended-Grows s target now edge (λ e. ground arith)))

-- Every operation that succeeds on a constructed state keeps the identity of the lab, and the
-- inventory, the observations, the profile and the specification once they are set; its journal
-- stays or grows by one entry along an allowed transition, and never by a graded one.
pub change-Moves :
    (op : Op) (id : String) (s : LabState) (c : Change)
    → construct s ≡ ok s
    → change op id s ≡ ok c
    → Moves s (final c)
unfolding change
change-Moves (declare inventory) id s c built h = Moves-declare id s c built inventory h
change-Moves (bind_spec spec) id s c built h = Moves-bind_spec id s c built spec h
change-Moves (bind_profile profile) id s c built h = Moves-bind_profile id s c built profile h
change-Moves (observe observations) id s c built h = Moves-observe id s c built observations h
change-Moves (attest health now) id s c built h = Moves-attest id s c built health now h
change-Moves (prepare plan now) id s c built h = Moves-prepare id s c built plan now h
change-Moves (restore request now) id s c built h = Moves-restore id s c built request now h
change-Moves (advance_to target now) id s c built h = Moves-advance id s c built target now h
change-Moves (recover target os now) id s c built h = Moves-recover id s c built target os now h

-- An operation that succeeds on a constructed state of a destroyed lab appends nothing to its
-- journal.
pub destroyed-final :
    (op : Op) (id : String) (s : LabState) (c : Change)
    → construct s ≡ ok s
    → phase s ≡ destroyed
    → change op id s ≡ ok c
    → (final c).journal ≡ s.journal
destroyed-final op id s c built gone h = elim (change-Moves op id s c built h).journal_grows [
  | inl same ↦ same
  | inr (e, eq, place, edge, other) ↦ absurd (ground arith)
]
