-- ===== src/Lab/Store/Examples.antt =====
-- The theorems on the operations of a lab at a claimed, a validated and a prepared one.
use cks_simulator.Common.{
  ◌≡◌, refl, String, true, false, some, is_identifier, is_canonical_uuid, ok, arith,
}
use cks_simulator.Lab.State.{LabState}
use cks_simulator.Lab.State.Samples.{
  sample_lab_id, sample_health, claimed_lab, validated_lab, bound_lab, destroyed_lab,
  bound_destroyed_lab, prepared_lab, claimed_lab-construct, validated_lab-construct,
  bound_lab-construct, bound_destroyed_lab-construct, prepared_lab-construct,
  sample_active-construct, sample_identity-construct,
}
use cks_simulator.Lab.Store.{
  missing, stored, Disk, put, replace, ScenarioPlan, mutate, claim, prepare_scenario,
  restore_scenario, bind_provisioning_profile,
}
use cks_simulator.Lab.Store.Steps.{check_arguments, bind_profile, change, Moves}
use cks_simulator.Lab.Store.Journal.{change-Moves}
use cks_simulator.Lab.Store.Scenario.{restored, undo, prepare-restore}

bind_claimed : change (bind_profile "full") sample_lab_id claimed_lab ≡ ok (replace bound_lab)
unfolding change bind_provisioning_profile is_canonical_uuid
bind_claimed = ground (arith, bound_lab-construct)

change-Moves_example : Moves claimed_lab bound_lab
change-Moves_example =
    change-Moves (bind_profile "full") sample_lab_id claimed_lab (replace bound_lab)
      claimed_lab-construct bind_claimed

bind_destroyed :
    change (bind_profile "full") sample_lab_id destroyed_lab ≡ ok (replace bound_destroyed_lab)
unfolding change bind_provisioning_profile is_canonical_uuid
bind_destroyed = ground (arith, bound_destroyed_lab-construct)

abbrev plan : ScenarioPlan
plan = record {
  scenario_id = "07";
  attempt_id = sample_lab_id;
  handler_identity = "full.s07.v1";
  recovery_class = "restore-files";
  target_role = "candidate";
  prepared_fingerprint = sample_health;
  restore_fingerprint = sample_health;
}

prepare_succeeds :
    prepare_scenario plan "t7" sample_lab_id validated_lab ≡ ok (replace prepared_lab)
unfolding prepare_scenario is_canonical_uuid
prepare_succeeds = ground (arith, sample_active-construct, prepared_lab-construct)

prepare-restore_example :
    (health : String) × (t : LabState) × (u : LabState) × (some sample_health ≡ some health)
    × (replace prepared_lab ≡ replace t)
    × (restore_scenario (undo plan health) "t8" sample_lab_id t ≡ ok (replace u))
    × (u ≡ record validated_lab { journal = (restored t "t8").journal })
prepare-restore_example =
    prepare-restore sample_lab_id "t7" "t8" plan validated_lab (replace prepared_lab)
      validated_lab-construct prepare_succeeds

abbrev disk_of : LabState → Disk
disk_of s lab = stored s

rebind_probed :
    mutate "full" true "lab"
      (check_arguments (bind_profile "full"))
      (change (bind_profile "full") sample_lab_id)
      (disk_of bound_lab)
    ≡ ok (bound_lab, disk_of bound_lab)
unfolding mutate check_arguments change bind_provisioning_profile is_identifier is_canonical_uuid
rebind_probed = refl

abbrev bound_disk : Disk
bound_disk = put "lab" (stored bound_lab) (disk_of claimed_lab)

abbrev no_labs : Disk
no_labs lab = missing

claim_written :
    claim "full" false "lab" "lima" sample_lab_id "t0" no_labs
    ≡ ok (claimed_lab, put "lab" (stored claimed_lab) no_labs)
unfolding claim is_identifier
claim_written = ground (arith, sample_identity-construct, claimed_lab-construct)
