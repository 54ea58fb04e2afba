-- ===== src/Lab/State.antt =====
-- cks_simulator/state.py, `LabIdentity`, `JournalEntry`, `ActiveScenario` and `LabState` with its
-- `__post_init__`. The note of a journal entry (`detail`), which no code reads back, is left out.
pub mod Constructed
pub mod Samples
pub mod Equality
use cks_simulator.Common.{
  ℕ, suc, String, Bool, true, false, not, ◌&&◌, ◌||◌, Option, none, some, List, [], ◌∷◌, map,
  if◌then◌else◌, ◌==◌, is_none, is_empty, str_eq, is_in, is_identifier, is_canonical_uuid,
  is_sha256, is_handler_of, Kind, Result, ok, err, raise, raise_if, ◌>>=◌, ◌>>◌, Checked,
}
use cks_simulator.Exam.Base.{expected_task_ids}
use cks_simulator.Lab.Phase.{LabPhase, declared, allowed, is_declared, is_validated, is_prepared}
use cks_simulator.Lab.Machine.{
  ProviderHandle, ProviderMachine, MachineObservation, handle_eq, derive_provider_handle, distinct,
  distinct_handles, validated_observations,
}

pub record LabIdentity : Type 0 where
  pub lab_name : String
  pub lab_id : String
  pub provider : String
  pub namespace : String
  pub managed_by : String
  pub schema_version : ℕ

pub construct_identity : LabIdentity → Result LabIdentity
construct_identity i = do
  raise_if (not (is_identifier i.lab_name)) Kind.value_error "lab name is no identifier"
  raise_if (not (is_canonical_uuid i.lab_id)) Kind.value_error "lab_id must be a canonical UUID"
  raise_if (not (is_identifier i.provider)) Kind.value_error "provider is no identifier"
  raise_if (not (is_identifier i.namespace)) Kind.value_error "state namespace is no identifier"
  raise_if (not (str_eq i.managed_by "cks-simulator")) Kind.ownership_error
      "state is not managed by cks-simulator"
  raise_if (not (i.schema_version == 1)) Kind.state_validation_error "unsupported state schema"
  ok i

pub record JournalEntry : Type 0 where
  pub sequence : ℕ
  pub phase : LabPhase
  pub recorded_at : String

pub record ActiveScenario : Type 0 where
  pub scenario_id : String
  pub attempt_id : String
  pub handler_identity : String
  pub recovery_class : String
  pub target_role : String
  pub baseline_fingerprint : String
  pub prepared_fingerprint : String
  pub restore_fingerprint : String

-- The scenario's identifiers 01 to 17 are the exam's. The three names are tested in one `try`.
unfoldable pub construct_active : ActiveScenario → Result ActiveScenario
construct_active a = do
  raise_if (not (is_in a.scenario_id expected_task_ids)) Kind.state_validation_error
      "active scenario ID must be canonical from 01 through 17"
  raise_if
      (not (is_canonical_uuid a.attempt_id)
        || not (is_identifier a.recovery_class)
        || not (is_identifier a.target_role))
      Kind.state_validation_error "active scenario identity is invalid"
  raise_if (not (is_handler_of a.scenario_id a.handler_identity)) Kind.state_validation_error
      "active scenario handler identity is invalid"
  raise_if (not (is_sha256 a.baseline_fingerprint)) Kind.state_validation_error
      "active scenario fingerprint must be canonical SHA-256"
  raise_if (not (is_sha256 a.prepared_fingerprint)) Kind.state_validation_error
      "active scenario fingerprint must be canonical SHA-256"
  raise_if (not (is_sha256 a.restore_fingerprint)) Kind.state_validation_error
      "active scenario fingerprint must be canonical SHA-256"
  ok a

pub record LabState : Type 0 where
  pub identity : LabIdentity
  pub inventory : List ProviderMachine
  pub journal : List JournalEntry
  pub observations : List MachineObservation
  pub provisioning_profile : Option String
  pub provisioning_spec_sha256 : Option String
  pub health_fingerprint : Option String
  pub active_scenario : Option ActiveScenario

-- `self.journal[-1].phase`; no constructed state has an empty journal.
abbrev pub last_phase : List JournalEntry → LabPhase
last_phase [] = declared
last_phase (e ∷ []) = e.phase
last_phase (e ∷ f ∷ es) = last_phase (f ∷ es)

abbrev pub phase : LabState → LabPhase
phase s = last_phase s.journal

abbrev passes_if_given : (String → Bool) → Option String → Bool
passes_if_given test none = true
passes_if_given test (some v) = test v

check_texts : Option String → Option String → Option String → Checked
check_texts profile spec health = do
  raise_if (not (passes_if_given is_identifier profile)) Kind.value_error
      "provisioning profile is no identifier"
  raise_if (not (passes_if_given is_sha256 spec)) Kind.state_validation_error
      "lab provisioning spec SHA-256 must be canonical when present"
  raise_if (not (passes_if_given is_sha256 health)) Kind.state_validation_error
      "lab health fingerprint must be canonical when present"

abbrev begins_declared : List JournalEntry → Bool
begins_declared [] = false
begins_declared (e ∷ es) = is_declared e.phase

-- `[entry.sequence for entry in journal] == list(range(len(journal)))`, from n on
pub contiguous : ℕ → List JournalEntry → Bool
contiguous n [] = true
contiguous n (e ∷ es) = (e.sequence == n) && contiguous (suc n) es

pub transitions_allowed : LabPhase → List JournalEntry → Bool
transitions_allowed previous [] = true
transitions_allowed previous (e ∷ es) = allowed previous e.phase && transitions_allowed e.phase es

-- The loop over the pairs of neighbours.
check_transitions : List JournalEntry → Checked
unfolding transitions_allowed
check_transitions [] = ok tt
check_transitions (e ∷ es) =
    raise_if (not (transitions_allowed e.phase es)) Kind.state_validation_error
      "invalid persisted phase transition"

pub check_journal : List JournalEntry → Checked
unfolding contiguous check_transitions
check_journal journal = do
  raise_if (not (begins_declared journal)) Kind.state_validation_error
      "journal must begin in declared phase"
  raise_if (not (contiguous 0 journal)) Kind.state_validation_error
      "journal sequences must be contiguous from zero"
  check_transitions journal

-- `_validate_derived_inventory`: an error of the derivation becomes a `StateValidationError`.
check_derived : ProviderHandle → Result ProviderHandle → Checked
check_derived handle (err e) =
    raise Kind.state_validation_error "inventory uses an unsupported provider policy"
check_derived handle (ok expected) =
    raise_if (not (handle_eq handle expected)) Kind.state_validation_error
      "inventory handle is not derived from lab identity"

unfoldable pub validate_derived_inventory : LabIdentity → List ProviderMachine → Checked
unfolding check_derived
validate_derived_inventory identity [] = ok tt
validate_derived_inventory identity (m ∷ ms) = do
  check_derived m.handle (derive_provider_handle identity.provider identity.lab_id m.role)
  validate_derived_inventory identity ms

one_provider : String → List ProviderMachine → Bool
one_provider provider [] = true
one_provider provider (m ∷ ms) = str_eq m.handle.provider provider && one_provider provider ms

check_inventory : LabIdentity → List ProviderMachine → Checked
unfolding one_provider validate_derived_inventory
check_inventory identity inventory = do
  raise_if (not (distinct (map (λ m. m.role) inventory))) Kind.state_validation_error
      "inventory roles must be unique"
  raise_if (not (distinct (map (λ m. m.machine_id) inventory))) Kind.state_validation_error
      "inventory machine identities must be unique"
  raise_if (not (distinct_handles (map (λ m. m.handle) inventory))) Kind.state_validation_error
      "inventory provider handles must be unique"
  raise_if (not (one_provider identity.provider inventory)) Kind.state_validation_error
      "inventory handle provider does not match lab identity"
  validate_derived_inventory identity inventory

-- `if self.observations:` they are validated and put into the order of the roles.
pub ordered_observations :
    String → List ProviderMachine → List MachineObservation → Result (List MachineObservation)
ordered_observations provider inventory [] = ok []
ordered_observations provider inventory (o ∷ os) =
    validated_observations provider inventory (o ∷ os)

abbrev baseline_differs : ActiveScenario → Option String → Bool
baseline_differs active none = true
baseline_differs active (some health) = not (str_eq active.baseline_fingerprint health)

pub check_active : LabPhase → Option ActiveScenario → Option String → Checked
check_active current none health =
    raise_if (is_prepared current && not (is_none health)) Kind.state_validation_error
      "scenario-prepared state with a health baseline requires an active scenario"
check_active current (some active) health = do
  raise_if (is_validated current) Kind.state_validation_error
      "validated state cannot retain an active scenario"
  raise_if (is_none health) Kind.state_validation_error
      "active scenario requires a lab health fingerprint"
  raise_if (baseline_differs active health) Kind.state_validation_error
      "active scenario baseline does not match lab health"

-- `LabState.__post_init__`
unfoldable pub construct : LabState → Result LabState
unfolding check_texts check_journal check_inventory ordered_observations check_active
construct s = do
  check_texts s.provisioning_profile s.provisioning_spec_sha256 s.health_fingerprint
  check_journal s.journal
  check_inventory s.identity s.inventory
  ordered ← ordered_observations s.identity.provider s.inventory s.observations
  check_active (phase s) s.active_scenario s.health_fingerprint
  ok (record s { observations = ordered })
