-- ===== src/Lab/Machine/Observed.antt =====
-- What the validation of the machines' observations asks of the inventory.
use cks_simulator.Common.{String, List, [], ok, texts_eq_iff, arith, ◌≢◌}
use cks_simulator.Lab.Machine.{
  MachineObservation, sort_texts, full_lima_roles, validated_observations,
}

-- An empty inventory has no observations.
pub no_machines :
    (p : String) (os r : List MachineObservation) → validated_observations p [] os ≢ ok r
unfolding validated_observations
no_machines p os r h = ground (arith, texts_eq_iff [] (sort_texts full_lima_roles))
