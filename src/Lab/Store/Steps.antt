-- ===== src/Lab/Store/Steps.antt =====
-- One operation on the state of a lab, whichever it is: what it keeps, and what it may append.
use cks_simulator.Common.{
  ◌≡◌, ◌≢◌, refl, ◌⊎◌, inl, String, true, Option, none, some, List, [], ◌∷◌, ◌++◌, length, Result,
  Checked, raise_if, not, is_sha256, is_identifier, Kind, ok, arith,
}
use cks_simulator.Lab.Phase.{LabPhase, graded, allowed}
use cks_simulator.Lab.Machine.{ProviderMachine, MachineObservation}
use cks_simulator.Lab.State.{JournalEntry, LabState, last_phase, construct}
use cks_simulator.Lab.State.Constructed.{construct_inv}
use cks_simulator.Lab.Store.{
  Change, keep, replace, ScenarioPlan, RestoreRequest, declare_inventory, bind_provisioning_spec,
  bind_provisioning_profile, record_machine_observations, attest_validated, prepare_scenario,
  restore_scenario, advance, recover_verified_phase,
}

pub data Op : Type 0 where
  declare : List ProviderMachine → Op
  bind_spec bind_profile : String → Op
  observe : List MachineObservation → Op
  attest : String → String → Op
  prepare : ScenarioPlan → String → Op
  restore : RestoreRequest → String → Op
  advance_to : LabPhase → String → Op
  recover : LabPhase → List MachineObservation → String → Op

unfoldable pub change : Op → String → LabState → Result Change
change (declare inventory) id s = declare_inventory inventory id s
change (bind_spec spec) id s = bind_provisioning_spec spec id s
change (bind_profile profile) id s = bind_provisioning_profile profile id s
change (observe observations) id s = record_machine_observations observations id s
change (attest health now) id s = attest_validated health now id s
change (prepare plan now) id s = prepare_scenario plan now id s
change (restore request now) id s = restore_scenario request now id s
change (advance_to target now) id s = advance target now id s
change (recover target observations now) id s = recover_verified_phase target observations now id s

check_spec : String → Checked
check_spec spec =
    raise_if (not (is_sha256 spec)) Kind.state_validation_error
      "provisioning spec SHA-256 must be canonical"

check_profile : String → Checked
check_profile profile =
    raise_if (not (is_identifier profile)) Kind.value_error "provisioning profile is no identifier"

check_health : String → Checked
check_health health =
    raise_if (not (is_sha256 health)) Kind.state_validation_error
      "health fingerprint must be canonical SHA-256"

-- The tests that the operation makes of its arguments before it reads the file.
unfoldable pub check_arguments : Op → Checked
unfolding check_spec check_profile check_health
check_arguments (bind_spec spec) = check_spec spec
check_arguments (bind_profile profile) = check_profile profile
check_arguments (attest health now) = check_health health
check_arguments _ = ok tt

-- The state that the operation returns.
abbrev pub final : Change → LabState
final (keep s) = s
final (replace s) = s

-- A value that is set stays, and a list that is not empty.
abbrev Kept : Option String → Option String → Type 0
Kept none new = Unit
Kept (some old) new = new ≡ some old

abbrev pub KeptList {ℓ} : {A : Type ℓ} → List A → List A → Type ℓ
KeptList [] new = Unit
KeptList (x ∷ xs) new = new ≡ x ∷ xs

-- The journal stays, or grows by one entry along an allowed transition. No entry is `graded`.
abbrev pub Grows : List JournalEntry → List JournalEntry → Type 0
Grows old new =
    (new ≡ old)
    ⊎ ((e : JournalEntry) × (new ≡ old ++ e ∷ [])
        × (e.sequence ≡ length old)
        × (allowed (last_phase old) e.phase ≡ true)
        × (e.phase ≢ graded))

pub record Moves (s t : LabState) : Type 0 where
  pub identity_kept : t.identity ≡ s.identity
  pub inventory_kept : KeptList s.inventory t.inventory
  pub observations_kept : KeptList s.observations t.observations
  pub profile_kept : Kept s.provisioning_profile t.provisioning_profile
  pub spec_kept : Kept s.provisioning_spec_sha256 t.provisioning_spec_sha256
  pub journal_grows : Grows s.journal t.journal

-- The state to construct moves on from a constructed one.
module _ (s u t : LabState) (built : construct s ≡ ok s) (done : construct u ≡ ok t) where
  -- The observations of both are the same, or there were none.
  observations-construct :
      (u.identity ≡ s.identity)
      → ((u.inventory ≡ s.inventory) × (u.observations ≡ s.observations)) ⊎ (s.observations ≡ [])
      → KeptList s.observations t.observations
  observations-construct same kept =
      let (os, o, eq) = construct_inv u t done in
      let (ps, p, eq') = construct_inv s s built in ground arith

  pub Moves-construct :
      (u.identity ≡ s.identity)
      → KeptList s.inventory u.inventory
      → ((u.inventory ≡ s.inventory) × (u.observations ≡ s.observations)) ⊎ (s.observations ≡ [])
      → Kept s.provisioning_profile u.provisioning_profile
      → Kept s.provisioning_spec_sha256 u.provisioning_spec_sha256
      → Grows s.journal u.journal
      → Moves s t
  Moves-construct identity inventory observations profile spec journal =
      let (os, o, eq) = construct_inv u t done in
      let kept : KeptList s.observations t.observations =
        observations-construct identity observations in
      record {
        identity_kept = rw eq identity;
        inventory_kept = rw eq inventory;
        observations_kept = kept;
        profile_kept = rw eq profile;
        spec_kept = rw eq spec;
        journal_grows = rw eq journal;
      }

pub Kept-refl : (o : Option String) → Kept o o
Kept-refl none = tt
Kept-refl (some v) = refl

pub KeptList-refl {ℓ} : {A : Type ℓ} (xs : List A) → KeptList xs xs
KeptList-refl [] = tt
KeptList-refl (x ∷ xs) = refl

pub Moves-refl : (s : LabState) → Moves s s
Moves-refl s = record {
  identity_kept = refl;
  inventory_kept = KeptList-refl s.inventory;
  observations_kept = KeptList-refl s.observations;
  profile_kept = Kept-refl s.provisioning_profile;
  spec_kept = Kept-refl s.provisioning_spec_sha256;
  journal_grows = inl refl;
}
