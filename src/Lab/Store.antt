-- ===== src/Lab/Store.antt =====
-- cks_simulator/state.py, `LabStateStore`: the operations that change the state of a lab. The file
-- of a lab holds a state that `from_dict` has read, or nothing readable; the directory checks and
-- the atomic replacement are the operating system's. The caller holds the lab's lock, so that an
-- operation is one step. `now` is the time that `_now` gives.
pub mod Steps
pub mod Success
pub mod Journal
pub mod Scenario
pub mod Written
pub mod Rebuilt
pub mod Files
mod Examples
use cks_simulator.Common.{
  ℕ, String, Bool, true, false, not, ◌&&◌, ◌||◌, Option, none, some, List, [], ◌∷◌, ◌++◌, length,
  if◌then◌else◌, is_none, is_empty, str_eq, is_identifier, is_canonical_uuid, is_sha256, Kind,
  Result, ok, err, raise, raise_if, ◌>>=◌, ◌>>◌, Checked,
}
use cks_simulator.Lab.Phase.{
  LabPhase, declared, validated, scenario_prepared, allowed, is_verified_phase, is_scenario_phase,
  is_declared, is_candidate_ready, is_validated, is_prepared, is_degraded, is_closing,
}
use cks_simulator.Lab.Machine.{
  ProviderMachine, MachineObservation, observations_eq, validated_observations,
}
use cks_simulator.Lab.State.{
  LabIdentity, construct_identity, JournalEntry, ActiveScenario, construct_active, LabState, phase,
  validate_derived_inventory, construct,
}

pub data Slot : Type 0 where
  missing damaged : Slot
  stored : LabState → Slot

abbrev pub Disk : Type 0
Disk = String → Slot

unfoldable pub put : String → Slot → Disk → Disk
put lab slot disk other = if str_eq other lab then slot else disk other

-- What an operation makes of the state that it has read: it gives it back, or writes another.
pub data Change : Type 0 where
  keep replace : LabState → Change

-- `_require_identity`
unfoldable pub require_identity : LabState → String → Checked
require_identity s expected_lab_id = do
  raise_if (not (is_canonical_uuid expected_lab_id)) Kind.ownership_error
      "expected lab identity is invalid"
  raise_if (not (str_eq s.identity.lab_id expected_lab_id)) Kind.ownership_error
      "state lab identity does not match the caller's immutable claim"

abbrev replaced : Result LabState → Result Change
replaced r = r >>= λ t. ok (replace t)

-- `state.journal + (JournalEntry(len(state.journal), phase, _now()),)`
abbrev pub appended : LabState → LabPhase → String → List JournalEntry
appended s target now =
    s.journal ++ record { sequence = length s.journal; phase = target; recorded_at = now } ∷ []

abbrev same_text : Option String → String → Bool
same_text none v = false
same_text (some u) v = str_eq u v

pub declare_inventory : List ProviderMachine → String → LabState → Result Change
unfolding require_identity
declare_inventory inventory expected_lab_id s = do
  validate_derived_inventory s.identity s.inventory
  require_identity s expected_lab_id
  raise_if (not (is_declared (phase s))) Kind.state_validation_error
      "inventory can only be declared in the declared phase"
  raise_if (not (is_empty s.inventory)) Kind.state_validation_error
      "inventory is immutable once declared"
  raise_if (is_empty inventory) Kind.state_validation_error
      "inventory must declare at least one machine before creation"
  replaced (construct (record s { inventory = inventory }))

-- The binding of a text that is not bound yet, or is bound to the same text.
bind_spec_to : Option String → String → LabState → Result Change
bind_spec_to (some bound) spec s =
    if not (str_eq bound spec)
    then raise Kind.state_validation_error "immutable provisioning specification drift detected"
    else ok (keep s)
bind_spec_to none spec s = do
  raise_if (not (is_empty s.inventory) || not (is_empty s.observations)) Kind.state_validation_error
      "legacy state has provider inventory without a bound provisioning specification"
  replaced (construct (record s { provisioning_spec_sha256 = some spec }))

pub bind_provisioning_spec : String → String → LabState → Result Change
unfolding require_identity bind_spec_to
bind_provisioning_spec spec expected_lab_id s = do
  require_identity s expected_lab_id
  bind_spec_to s.provisioning_spec_sha256 spec s

bind_profile_to : Option String → String → LabState → Result Change
bind_profile_to (some bound) profile s =
    if not (str_eq bound profile)
    then raise Kind.state_validation_error "immutable provisioning profile drift detected"
    else ok (keep s)
bind_profile_to none profile s = do
  raise_if (not (is_none s.provisioning_spec_sha256) || not (is_empty s.inventory))
      Kind.state_validation_error
      "provisioning profile must be bound before specification and inventory"
  replaced (construct (record s { provisioning_profile = some profile }))

pub bind_provisioning_profile : String → String → LabState → Result Change
unfolding require_identity bind_profile_to
bind_provisioning_profile profile expected_lab_id s = do
  require_identity s expected_lab_id
  bind_profile_to s.provisioning_profile profile s

record_normalized : List MachineObservation → LabState → Result Change
record_normalized normalized s =
    if not (is_empty s.observations)
    then (if not (observations_eq s.observations normalized)
        then raise Kind.state_validation_error
            "machine observations are immutable; identity or IP drift detected"
        else ok (keep s))
    else if is_closing (phase s)
    then raise Kind.state_validation_error
        "machine observations cannot be introduced during or after cleanup"
    else replaced (construct (record s { observations = normalized }))

pub record_machine_observations : List MachineObservation → String → LabState → Result Change
unfolding require_identity record_normalized
record_machine_observations observations expected_lab_id s = do
  require_identity s expected_lab_id
  normalized ← validated_observations s.identity.provider s.inventory observations
  record_normalized normalized s

attest_again : Option String → String → LabState → Result Change
attest_again none health s = replaced (construct (record s { health_fingerprint = some health }))
attest_again (some known) health s =
    if not (str_eq known health)
    then raise Kind.state_validation_error "validated health fingerprint drift detected"
    else ok (keep s)

attest_first : String → String → LabState → Result Change
attest_first health now s = do
  raise_if (not (is_candidate_ready (phase s))) Kind.invalid_transition_error
      "baseline attestation requires candidate-ready state"
  raise_if (not (is_none s.active_scenario)) Kind.state_validation_error
      "cannot attest baseline with an active scenario"
  replaced (
      construct (record s { health_fingerprint = some health; journal = appended s validated now }))

attest_by_phase : String → String → LabState → Result Change
unfolding attest_again attest_first
attest_by_phase health now s =
    if is_validated (phase s)
    then attest_again s.health_fingerprint health s
    else attest_first health now s

pub attest_validated : String → String → String → LabState → Result Change
unfolding require_identity attest_by_phase
attest_validated health now expected_lab_id s = do
  require_identity s expected_lab_id
  attest_by_phase health now s

-- The keyword arguments of `prepare_scenario`.
pub record ScenarioPlan : Type 0 where
  pub scenario_id : String
  pub attempt_id : String
  pub handler_identity : String
  pub recovery_class : String
  pub target_role : String
  pub prepared_fingerprint : String
  pub restore_fingerprint : String

abbrev pub active_of : ScenarioPlan → String → ActiveScenario
active_of plan baseline = record {
  scenario_id = plan.scenario_id;
  attempt_id = plan.attempt_id;
  handler_identity = plan.handler_identity;
  recovery_class = plan.recovery_class;
  target_role = plan.target_role;
  baseline_fingerprint = baseline;
  prepared_fingerprint = plan.prepared_fingerprint;
  restore_fingerprint = plan.restore_fingerprint;
}

prepare_on : Option String → ScenarioPlan → String → LabState → Result Change
prepare_on none plan now s =
    raise Kind.state_validation_error "validated lab is missing its health baseline"
prepare_on (some health) plan now s = do
  raise_if (not (is_none s.active_scenario)) Kind.state_validation_error
      "scenario is already active"
  active ← construct_active (active_of plan health)
  replaced (
      construct
        (record s { active_scenario = some active; journal = appended s scenario_prepared now }))

unfoldable pub prepare_scenario : ScenarioPlan → String → String → LabState → Result Change
unfolding require_identity prepare_on
prepare_scenario plan now expected_lab_id s = do
  require_identity s expected_lab_id
  raise_if (not (is_validated (phase s))) Kind.invalid_transition_error
      "scenario preparation requires validated state"
  prepare_on s.health_fingerprint plan now s

-- The keyword arguments of `restore_scenario`.
pub record RestoreRequest : Type 0 where
  pub scenario_id : String
  pub attempt_id : String
  pub health_fingerprint : String
  pub scenario_fingerprint : String

restore_active : Option ActiveScenario → RestoreRequest → String → LabState → Result Change
restore_active none request now s =
    raise Kind.state_validation_error "scenario-prepared state has no active scenario"
restore_active (some active) request now s = do
  raise_if
      (not (str_eq active.scenario_id request.scenario_id)
        || not (str_eq active.attempt_id request.attempt_id))
      Kind.ownership_error "active scenario identity does not match restore request"
  raise_if (not (str_eq request.health_fingerprint active.baseline_fingerprint))
      Kind.state_validation_error "restored health fingerprint does not match the trusted baseline"
  raise_if (not (str_eq request.scenario_fingerprint active.restore_fingerprint))
      Kind.state_validation_error "restored scenario fingerprint does not match recovery contract"
  replaced (
      construct (record s {
        active_scenario = none;
        health_fingerprint = some request.health_fingerprint;
        journal = appended s validated now;
      }))

pub restore_scenario : RestoreRequest → String → String → LabState → Result Change
unfolding require_identity restore_active
restore_scenario request now expected_lab_id s = do
  require_identity s expected_lab_id
  raise_if (not (is_prepared (phase s) || is_degraded (phase s))) Kind.invalid_transition_error
      "scenario restore requires prepared or degraded active state"
  restore_active s.active_scenario request now s

pub advance : LabPhase → String → String → LabState → Result Change
unfolding require_identity
advance target now expected_lab_id s = do
  require_identity s expected_lab_id
  raise_if (is_scenario_phase target) Kind.invalid_transition_error
      "scenario phases require the dedicated attestation/lifecycle methods"
  raise_if (is_degraded (phase s) && is_verified_phase target) Kind.invalid_transition_error
      "degraded labs require recover_verified_phase with fresh observations"
  raise_if (not (allowed (phase s) target)) Kind.invalid_transition_error "invalid phase transition"
  raise_if (is_verified_phase target && is_empty s.observations) Kind.state_validation_error
      "complete machine observations are required before a verified U4 phase"
  replaced (construct (record s { journal = appended s target now }))

-- `state.observations or normalized`
abbrev pub or_normalized :
    List MachineObservation → List MachineObservation → List MachineObservation
or_normalized [] normalized = normalized
or_normalized (o ∷ os) normalized = o ∷ os

pub recover_verified_phase :
    LabPhase → List MachineObservation → String → String → LabState → Result Change
unfolding require_identity
recover_verified_phase target observations now expected_lab_id s = do
  require_identity s expected_lab_id
  raise_if (not (is_verified_phase target)) Kind.invalid_transition_error
      "verified recovery target must be vms-created, os-ready, cluster-ready, or addons-ready"
  raise_if (not (is_degraded (phase s))) Kind.invalid_transition_error
      "verified recovery requires the current degraded phase"
  normalized ← validated_observations s.identity.provider s.inventory observations
  raise_if (not (is_empty s.observations) && not (observations_eq s.observations normalized))
      Kind.state_validation_error
      "machine observations are immutable; identity or IP drift detected"
  replaced (
      construct (record s {
        observations = or_normalized s.observations normalized;
        journal = appended s target now;
      }))

unfoldable pub check_lab : String → Checked
check_lab lab = raise_if (not (is_identifier lab)) Kind.value_error "lab name is no identifier"

-- The identity and the state that `claim` creates.
abbrev pub claimed_identity : String → String → String → String → LabIdentity
claimed_identity namespace lab provider lab_id = record {
  lab_name = lab;
  lab_id = lab_id;
  provider = provider;
  namespace = namespace;
  managed_by = "cks-simulator";
  schema_version = 1;
}

abbrev pub claimed_state : LabIdentity → String → LabState
claimed_state identity now = record {
  identity = identity;
  inventory = [];
  journal = record { sequence = 0; phase = declared; recorded_at = now } ∷ [];
  observations = [];
  provisioning_profile = none;
  provisioning_spec_sha256 = none;
  health_fingerprint = none;
  active_scenario = none;
}

pub require_provider : String → Checked
require_provider provider =
    raise_if (not (is_identifier provider)) Kind.value_error "provider is no identifier"

module _ (namespace : String) where
  -- `_load_from_chain`
  load_slot : String → Slot → Result LabState
  load_slot lab missing = raise Kind.state_missing_error "state is missing"
  load_slot lab damaged = raise Kind.state_validation_error "state is unreadable"
  load_slot lab (stored s) = do
    raise_if (not (str_eq s.identity.lab_name lab)) Kind.ownership_error
        "state identity does not match requested lab"
    raise_if (not (str_eq s.identity.namespace namespace)) Kind.ownership_error
        "state namespace does not match this store"
    ok s

  unfoldable pub load : String → Disk → Result LabState
  unfolding load_slot check_lab
  load lab disk = do check_lab lab; load_slot lab (disk lab)

-- `writes_prohibited` is what `state_write_prohibited` has set for a read-only grading probe.
module _ (namespace : String) (writes_prohibited : Bool) where
  pub require_writes_allowed : Checked
  require_writes_allowed =
      raise_if writes_prohibited Kind.state_validation_error
        "persistent state mutation is prohibited during grading"

  -- `_atomic_replace_json_at`, and the state that the operation returns.
  unfoldable pub commit : String → Disk → Change → Result (LabState × Disk)
  unfolding require_writes_allowed
  commit lab disk (keep s) = ok (s, disk)
  commit lab disk (replace s) = do require_writes_allowed; ok (s, put lab (stored s) disk)

  -- An operation on the file of a lab. The tests of its arguments come before the file is read.
  unfoldable pub mutate :
      String → Checked → (LabState → Result Change) → Disk → Result (LabState × Disk)
  unfolding load commit
  mutate lab arguments change disk = do
    check_lab lab
    arguments
    s ← load namespace lab disk
    c ← change s
    commit lab disk c

  is_vacant : Slot → Bool
  is_vacant missing = true
  is_vacant _ = false

  -- `claim`; the identifier that `uuid.uuid4` draws is an argument.
  pub claim : String → String → String → String → Disk → Result (LabState × Disk)
  unfolding require_writes_allowed check_lab require_provider is_vacant
  claim lab provider lab_id now disk = do
    require_writes_allowed
    check_lab lab
    require_provider provider
    identity ← construct_identity (claimed_identity namespace lab provider lab_id)
    s ← construct (claimed_state identity now)
    raise_if (not (is_vacant (disk lab))) Kind.state_exists_error "state already exists"
    ok (s, put lab (stored s) disk)
