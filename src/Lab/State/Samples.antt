-- ===== src/Lab/State/Samples.antt =====
-- States of a lab for the examples: just claimed, and validated with one machine.
use cks_simulator.Common.{
  ◌≡◌, refl, String, none, some, [], ◌∷◌, ◌++◌, is_in, is_identifier, is_canonical_uuid, is_sha256,
  is_handler_of, drop_hyphens, ◌+++◌, take_text, ok,
}
use cks_simulator.Lab.Phase.{
  declared, vms_created, os_ready, cluster_ready, addons_ready, candidate_ready, validated,
  scenario_prepared, destroyed,
}
use cks_simulator.Lab.Machine.{ProviderMachine, derive_provider_handle, distinct_handles, distinct}
use cks_simulator.Lab.State.{
  LabIdentity, construct_identity, ActiveScenario, construct_active, LabState, construct,
}

abbrev pub sample_lab_id : String
sample_lab_id = "01234567-89ab-4cde-8f01-23456789abcd"

abbrev pub sample_health : String
sample_health = "0123456789abcdef0123456789abcdef0123456789abcdef0123456789abcdef"

abbrev sample_identity : LabIdentity
sample_identity = record {
  lab_name = "lab";
  lab_id = sample_lab_id;
  provider = "lima";
  namespace = "full";
  managed_by = "cks-simulator";
  schema_version = 1;
}

abbrev pub claimed_lab : LabState
claimed_lab = record {
  identity = sample_identity;
  inventory = [];
  journal = record { sequence = 0; phase = declared; recorded_at = "t0" } ∷ [];
  observations = [];
  provisioning_profile = none;
  provisioning_spec_sha256 = none;
  health_fingerprint = none;
  active_scenario = none;
}

abbrev pub sample_machine : ProviderMachine
sample_machine = record {
  role = "candidate";
  machine_id = sample_lab_id;
  handle = record { provider = "lima"; value = "cks-0123456789ab4cde-candidate" };
}

abbrev pub validated_lab : LabState
validated_lab = record claimed_lab {
  inventory = sample_machine ∷ [];
  journal =
      record { sequence = 0; phase = declared; recorded_at = "t0" }
      ∷ record { sequence = 1; phase = vms_created; recorded_at = "t1" }
      ∷ record { sequence = 2; phase = os_ready; recorded_at = "t2" }
      ∷ record { sequence = 3; phase = cluster_ready; recorded_at = "t3" }
      ∷ record { sequence = 4; phase = addons_ready; recorded_at = "t4" }
      ∷ record { sequence = 5; phase = candidate_ready; recorded_at = "t5" }
      ∷ record { sequence = 6; phase = validated; recorded_at = "t6" }
      ∷ [];
  health_fingerprint = some sample_health;
}

pub claimed_lab-construct : construct claimed_lab ≡ ok claimed_lab
unfolding construct distinct distinct_handles
claimed_lab-construct = refl

pub validated_lab-construct : construct validated_lab ≡ ok validated_lab
unfolding construct derive_provider_handle is_identifier is_canonical_uuid is_sha256 drop_hyphens
    ◌+++◌ take_text distinct distinct_handles is_in
validated_lab-construct = refl

abbrev pub bound_lab : LabState
bound_lab = record claimed_lab { provisioning_profile = some "full" }

pub bound_lab-construct : construct bound_lab ≡ ok bound_lab
unfolding construct is_identifier distinct distinct_handles
bound_lab-construct = refl

abbrev pub destroyed_lab : LabState
destroyed_lab = record claimed_lab {
  journal =
      record { sequence = 0; phase = declared; recorded_at = "t0" }
      ∷ record { sequence = 1; phase = destroyed; recorded_at = "t1" }
      ∷ [];
}

pub destroyed_lab-construct : construct destroyed_lab ≡ ok destroyed_lab
unfolding construct distinct distinct_handles
destroyed_lab-construct = refl

abbrev pub bound_destroyed_lab : LabState
bound_destroyed_lab = record destroyed_lab { provisioning_profile = some "full" }

pub bound_destroyed_lab-construct : construct bound_destroyed_lab ≡ ok bound_destroyed_lab
unfolding construct is_identifier distinct distinct_handles
bound_destroyed_lab-construct = refl

abbrev pub sample_active : ActiveScenario
sample_active = record {
  scenario_id = "07";
  attempt_id = sample_lab_id;
  handler_identity = "full.s07.v1";
  recovery_class = "restore-files";
  target_role = "candidate";
  baseline_fingerprint = sample_health;
  prepared_fingerprint = sample_health;
  restore_fingerprint = sample_health;
}

pub sample_active-construct : construct_active sample_active ≡ ok sample_active
unfolding construct_active is_in is_identifier is_canonical_uuid is_sha256 is_handler_of
sample_active-construct = refl

abbrev pub prepared_lab : LabState
prepared_lab = record validated_lab {
  active_scenario = some sample_active;
  journal =
      validated_lab.journal
      ++ record { sequence = 7; phase = scenario_prepared; recorded_at = "t7" } ∷ [];
}

pub prepared_lab-construct : construct prepared_lab ≡ ok prepared_lab
unfolding construct derive_provider_handle is_identifier is_canonical_uuid is_sha256 drop_hyphens
    ◌+++◌ take_text distinct distinct_handles is_in
prepared_lab-construct = refl

pub sample_identity-construct : construct_identity sample_identity ≡ ok sample_identity
unfolding construct_identity is_identifier is_canonical_uuid
sample_identity-construct = refl
