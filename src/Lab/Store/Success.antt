-- ===== src/Lab/Store/Success.antt =====
-- What the success of each operation on a lab shows of the state before, and what it writes.
use cks_simulator.Common.{◌≡◌, ◌⊎◌, String, true, false, none, some, List, [], ok, arith}
use cks_simulator.Lab.Phase.{
  LabPhase, candidate_ready, validated, scenario_prepared, degraded, allowed, is_verified_phase,
  is_scenario_phase,
}
use cks_simulator.Lab.Machine.{ProviderMachine, MachineObservation, validated_observations}
use cks_simulator.Lab.State.{ActiveScenario, construct_active, LabState, phase, construct}
use cks_simulator.Lab.Store.{
  Change, keep, replace, appended, or_normalized, ScenarioPlan, RestoreRequest, active_of,
  declare_inventory, bind_provisioning_spec, bind_provisioning_profile, record_machine_observations,
  attest_validated, prepare_scenario, restore_scenario, advance, recover_verified_phase,
}

-- The operation gives the state back, or constructs and writes this one.
abbrev pub Builds : LabState → Change → Type 0
Builds u c = (t : LabState) × (construct u ≡ ok t) × (c ≡ replace t)

-- What the success of each operation shows.
module _ (id : String) (s : LabState) (c : Change) where
  pub declare_inv :
      (inventory : List ProviderMachine)
      → declare_inventory inventory id s ≡ ok c
      → (s.inventory ≡ []) × Builds (record s { inventory = inventory }) c
  unfolding declare_inventory
  declare_inv inventory h = ground arith

  pub bind_spec_inv :
      (spec : String)
      → bind_provisioning_spec spec id s ≡ ok c
      → (c ≡ keep s)
        ⊎ ((s.provisioning_spec_sha256 ≡ none)
            × Builds (record s { provisioning_spec_sha256 = some spec }) c)
  unfolding bind_provisioning_spec
  bind_spec_inv spec h = ground arith

  pub bind_profile_inv :
      (profile : String)
      → bind_provisioning_profile profile id s ≡ ok c
      → (c ≡ keep s)
        ⊎ ((s.provisioning_profile ≡ none)
            × Builds (record s { provisioning_profile = some profile }) c)
  unfolding bind_provisioning_profile
  bind_profile_inv profile h = ground arith

  pub observe_inv :
      (observations : List MachineObservation)
      → record_machine_observations observations id s ≡ ok c
      → (c ≡ keep s)
        ⊎ ((s.observations ≡ [])
            × ((os : List MachineObservation) × (validated_observations s.identity.provider
                    s.inventory observations
                  ≡ ok os)
                × Builds (record s { observations = os }) c))
  unfolding record_machine_observations
  observe_inv observations h = ground arith

  pub attest_inv :
      (health now : String)
      → attest_validated health now id s ≡ ok c
      → (c ≡ keep s)
        ⊎ Builds (record s { health_fingerprint = some health }) c
        ⊎ ((phase s ≡ candidate_ready)
            × Builds
                (record s { health_fingerprint = some health; journal = appended s validated now })
                c)
  unfolding attest_validated
  attest_inv health now h = ground arith

  pub prepare_inv :
      (plan : ScenarioPlan) (now : String)
      → prepare_scenario plan now id s ≡ ok c
      → (phase s ≡ validated)
        × ((health : String) × (s.health_fingerprint ≡ some health)
            × (s.active_scenario ≡ none)
            × ((a : ActiveScenario) × (construct_active (active_of plan health) ≡ ok a)
                × Builds
                    (record s {
                      active_scenario = some a;
                      journal = appended s scenario_prepared now;
                    })
                    c))
  unfolding prepare_scenario
  prepare_inv plan now h = ground arith

  pub restore_inv :
      (request : RestoreRequest) (now : String)
      → restore_scenario request now id s ≡ ok c
      → ((phase s ≡ scenario_prepared) ⊎ (phase s ≡ degraded))
        × Builds
            (record s {
              active_scenario = none;
              health_fingerprint = some request.health_fingerprint;
              journal = appended s validated now;
            })
            c
  unfolding restore_scenario
  restore_inv request now h = ground arith

  pub advance_inv :
      (target : LabPhase) (now : String)
      → advance target now id s ≡ ok c
      → (is_scenario_phase target ≡ false)
        × (allowed (phase s) target ≡ true)
        × Builds (record s { journal = appended s target now }) c
  unfolding advance
  advance_inv target now h = ground arith

  pub recover_inv :
      (target : LabPhase) (os : List MachineObservation) (now : String)
      → recover_verified_phase target os now id s ≡ ok c
      → (is_verified_phase target ≡ true)
        × (phase s ≡ degraded)
        × ((ps : List MachineObservation) × (validated_observations s.identity.provider s.inventory
                os
              ≡ ok ps)
            × Builds
                (record s {
                  observations = or_normalized s.observations ps;
                  journal = appended s target now;
                })
                c)
  unfolding recover_verified_phase
  recover_inv target os now h = ground arith
