-- ===== src/Scenario/Examples.antt =====
-- The theorems on the scenario engine at one scenario of one lab.
use cks_simulator.Common.{
  String, none, some, is_canonical_uuid, Fields, field, Json, ◌+++◌, is_handler_id, is_in, [], ◌∷◌,
  Bool, false, err, Kind, arith, ◌≡◌, refl, true, ok, inl,
}
use cks_simulator.Scenario.Lifecycle.Holds.{Holds}
use cks_simulator.Scenario.Engine.Success.{Prepared, prepare-Prepared}
use cks_simulator.Scenario.Engine.Recovers.{restore_recovers}
use cks_simulator.Lab.State.{LabState}
use cks_simulator.Lab.State.Samples.{
  sample_lab_id, sample_health, validated_lab, sample_active, prepared_lab,
}
use cks_simulator.Scenario.Recovery.{recovery_restores}
use cks_simulator.Scenario.Lifecycle.{stage, restoring, Spec}
use cks_simulator.Scenario.Lifecycle.Simulation.{run, run_all, engine_refines, Keeps, run_all-Keeps}
use cks_simulator.Scenario.Definition.{FullScenarioDefinition, require}
use cks_simulator.Scenario.Engine.{restore}
use cks_simulator.Scenario.Engine.Completes.{Graded, grade-Graded, Restored, restore-Restored}
use cks_simulator.Scenario.Samples.{
  sample_definition, sample_handler, sample_engine, intact_signals,
}
use cks_simulator.Scenario.Registry.{Handlers, register, resolve}
use cks_simulator.Scenario.Registry.Reviewed.{
  IsReviewed, with_grader, nothing_registered, resolve-IsReviewed,
}
use cks_simulator.Scenario.Fingerprint.{
  preparation_claim_fingerprint, scenario_state_fingerprint, Becomes, fingerprints_agree,
}
use cks_simulator.Scenario.Reference.{Reference, resolve_reference, execute, execute_lem}
use cks_simulator.Scenario.Samples.Runs.{
  sample_world, untouched, graded_sample, sample_Holds, sample_Attempted, sample_Works, back_lab,
  back_world, found_sample, restored_sample, start_world, broken_world, prepared_sample,
  recovered_sample, sample_AllTame, grade_and_prepare,
}

grade-Graded_example :
    (d : FullScenarioDefinition) × (require "7" sample_engine.catalog ≡ ok d)
    × Graded sample_engine "lab" d untouched sample_world sample_world
grade-Graded_example =
    grade-Graded sample_engine "lab" "7" untouched sample_world sample_world graded_sample

restore_recovers_example :
    (restore sample_engine "lab" "07" sample_world ≡ (ok back_lab, back_world))
    × Holds "full" "lab" back_lab back_world
unfolding sample_Works
restore_recovers_example =
    restore_recovers sample_engine "lab" sample_definition prepared_lab sample_active sample_world
      sample_Holds (inl refl) sample_Attempted sample_Works "07" found_sample

restore-Restored_example :
    (d : FullScenarioDefinition) × (require "07" sample_engine.catalog ≡ ok d)
    × Restored sample_engine "lab" d back_lab sample_world back_world
restore-Restored_example =
    restore-Restored sample_engine "lab" "07" back_lab sample_world back_world restored_sample

prepare-Prepared_example :
    (d : FullScenarioDefinition) × (require "07" sample_engine.catalog ≡ ok d)
    × (d.support ≡ "supported")
    × Prepared sample_engine "lab" d prepared_lab broken_world
prepare-Prepared_example =
    prepare-Prepared sample_engine "lab" "07" prepared_lab start_world broken_world prepared_sample

recovery_restores_example :
    (true ≡ true)
    × ((e : FullScenarioDefinition) × (t : LabState) × (require "07" sample_engine.catalog ≡ ok e)
        × Restored sample_engine "lab" e t sample_world back_world)
recovery_restores_example =
    recovery_restores sample_engine "lab" sample_definition intact_signals sample_world _ back_world
      (refl, refl) recovered_sample

engine_refines_example :
    (t : LabState) × Holds "full" "lab" t (run sample_engine "lab" restoring "07" sample_world).1
    × Spec restoring
        (run sample_engine "lab" restoring "07" sample_world).0
        (stage prepared_lab)
        (stage t)
engine_refines_example =
    engine_refines sample_engine "lab" restoring "07" prepared_lab sample_world sample_AllTame
      sample_Holds

run_all-Keeps_example :
    (t : LabState) × Holds "full" "lab" t
      (run_all sample_engine "lab" grade_and_prepare sample_world)
    × Keeps sample_active (stage t)
run_all-Keeps_example =
    run_all-Keeps sample_engine "lab" sample_AllTame grade_and_prepare sample_active prepared_lab
      sample_world tt sample_Holds (inl refl)

abbrev one_handler : Handlers Bool
one_handler = ("full.s07.v1", sample_handler) ∷ []

registered_one : register "full.s07.v1" sample_handler [] ≡ ok one_handler
unfolding register is_handler_id is_in
registered_one = refl

resolve-IsReviewed_example : IsReviewed "full.s07.v1" sample_handler
unfolding resolve
resolve-IsReviewed_example =
    resolve-IsReviewed sample_definition one_handler sample_handler
      (with_grader "full.s07.v1" sample_handler nothing_registered registered_one) refl

-- The action raises, and the cleanup mends the switch.
abbrev failing_reference : Reference Bool
failing_reference = record {
  action = λ ctx seconds w.
      (err (record { kind = Kind.other; message = "timeout" }), record w { live = false });
  cleanup = λ ctx seconds w. (ok tt, record w { live = true });
}

execute_lem_example :
    execute sample_definition
      (record { lab_name = "lab"; state = prepared_lab })
      900
      (("full.s07.v1", failing_reference) ∷ [])
      sample_world
    ≡ (err (record { kind = Kind.other; message = "timeout" }), record sample_world { live = true })
unfolding resolve_reference
execute_lem_example =
    execute_lem sample_definition (record { lab_name = "lab"; state = prepared_lab }) 900
      (("full.s07.v1", failing_reference) ∷ []) failing_reference sample_world (omega arith)
      (omega arith) refl

-- A digest that tells payloads apart by their first two values.
abbrev sample_digest : Fields → String
sample_digest (field _ (Json.int _) (field _ (Json.str attempt_id) _)) = attempt_id
sample_digest (field _ (Json.str contract) (field _ (Json.str attempt_id) _)) =
    attempt_id +++ contract
sample_digest _ = ""

sample_Becomes : Becomes sample_digest sample_definition sample_active validated_lab prepared_lab
unfolding is_canonical_uuid
sample_Becomes = record {
  idle = refl;
  active = refl;
  scenario = refl;
  handler = refl;
  canonical = refl;
  same_health = refl;
  same_lab = refl;
}

fingerprints_agree_example :
    (preparation_claim_fingerprint sample_digest
        (record { lab_name = "lab"; state = prepared_lab })
        sample_definition
        none
      ≡ preparation_claim_fingerprint sample_digest
          (record { lab_name = "lab"; state = validated_lab })
          sample_definition
          (some sample_lab_id))
    × (scenario_state_fingerprint sample_digest
          (record { lab_name = "lab"; state = prepared_lab })
          sample_definition
          "prepared"
          sample_health
          none
        ≡ scenario_state_fingerprint sample_digest
            (record { lab_name = "lab"; state = validated_lab })
            sample_definition
            "prepared"
            sample_health
            (some sample_lab_id))
fingerprints_agree_example =
    fingerprints_agree sample_digest sample_definition sample_active "lab" validated_lab
      prepared_lab sample_Becomes "prepared" sample_health
