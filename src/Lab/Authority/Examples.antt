-- ===== src/Lab/Authority/Examples.antt =====
-- The theorems on deletion at a lab with one machine and a provider that has proven it.
use cks_simulator.Common.{
  ◌≡◌, refl, ◌⊎◌, true, [], ◌∷◌, ◌++◌, All, is_identifier, is_canonical_uuid, drop_hyphens, ◌+++◌,
  take_text, ok,
}
use cks_simulator.Lab.Phase.{degraded}
use cks_simulator.Lab.Machine.{derive_provider_handle, has_handle, distinct_handles}
use cks_simulator.Lab.State.{LabState, phase, validate_derived_inventory}
use cks_simulator.Lab.State.Samples.{sample_machine, validated_lab}
use cks_simulator.Lab.Store.{Disk, stored, load}
use cks_simulator.Lab.Authority.{present, absent, ordinary, Provider, destroy_owned}
use cks_simulator.Lab.Authority.Proven.{IsProven}
use cks_simulator.Lab.Authority.Deletes.{Deletes, destroy_owned-Deletes}

abbrev provider : Provider
provider = record {
  name = "lima";
  discover = λ hs. record { presence = present; handles = hs };
  prove_ownership = λ guest mode. true;
}

abbrev degraded_lab : LabState
degraded_lab = record validated_lab {
  journal =
      validated_lab.journal ++ record { sequence = 7; phase = degraded; recorded_at = "t7" } ∷ [];
}

abbrev disk_of : LabState → Disk
disk_of s lab = stored s

load_validated : load "full" "lab" (disk_of validated_lab) ≡ ok validated_lab
unfolding load is_identifier
load_validated = refl

destroyed :
    destroy_owned "full" "lab" provider (disk_of validated_lab) ≡ ok (sample_machine.handle ∷ [])
unfolding destroy_owned load is_identifier is_canonical_uuid drop_hyphens ◌+++◌ take_text
    validate_derived_inventory derive_provider_handle has_handle distinct_handles
destroyed = refl

destroy_owned-Deletes_example :
    ((present ≡ absent) × (sample_machine.handle ∷ [] ≡ []))
    ⊎ ((present ≡ present)
        × Deletes (sample_machine ∷ []) (sample_machine.handle ∷ [])
        × All (IsProven provider ordinary validated_lab) (sample_machine ∷ []))
destroy_owned-Deletes_example =
    destroy_owned-Deletes "full" "lab" provider (disk_of validated_lab) validated_lab load_validated
      (sample_machine.handle ∷ []) destroyed
