-- ===== src/Scenario/Samples/Runs.antt =====
-- Runs of the sample engine: a grade, a restore and a preparation of its scenario.
use cks_simulator.Common.{
  ◌≡◌, refl, ap, inr, not, List, str_eq, Bool-cases, String, Bool, true, false, some, [], ◌∷◌,
  is_identifier, is_canonical_uuid, is_sha256, ok, arith, zfill_two, is_in, inl, ◌+++◌,
}
use cks_simulator.Scenario.Lifecycle.Holds.{Holds}
use cks_simulator.Scenario.Engine.Success.{Attempted}
use cks_simulator.Scenario.Engine.Recovers.{Works, restore_recovers}
use cks_simulator.LiveGrading.Verdict.{graded}
use cks_simulator.Lab.Store.Scenario.{restored as restored_lab}
use cks_simulator.LiveGrading.{LiveGrade, evaluate_live_grade, summarize}
use cks_simulator.Lab.State.{LabState}
use cks_simulator.Lab.State.Equality.{state_eq, state_eq_iff}
use cks_simulator.Lab.State.Samples.{
  sample_lab_id, sample_health, sample_active, validated_lab, prepared_lab, prepared_lab-construct,
  sample_active-construct,
}
use cks_simulator.Lab.Store.{load, put, replace, ScenarioPlan, stored, prepare_scenario, check_lab}
use cks_simulator.Lab.Store.Steps.{Op, check_arguments, change}
use mathlib.Core.Path.{subst}
use cks_simulator.Scenario.Registry.{Handler, GradeContext, GradeInputs}
use cks_simulator.Scenario.Leaves.{Leaves}
use cks_simulator.Scenario.Monad.{Exec}
use cks_simulator.Scenario.Probe.Tame.{IsTame, AllTame}
use cks_simulator.Scenario.Recovery.{recover_active_scenario}
use cks_simulator.Scenario.Definition.{targeted, select_recovery_mode}
use cks_simulator.Scenario.Lifecycle.{Call, preparing, grading}
use cks_simulator.Lab.Phase.{validated}
use cks_simulator.Lab.Store.Files.{mutate_writes}
use cks_simulator.Scenario.Definition.{FullScenarioDefinition, require}
use cks_simulator.Scenario.Monad.{
  World, follow, write_prohibited, on_error, stored_as, store, locked,
}
use cks_simulator.Scenario.Registry.{resolve, scenario_context, construct_grade_context}
use cks_simulator.Scenario.Probe.{collect}
use cks_simulator.Scenario.Engine.{
  require_fingerprint, prepare, grade, restore, prepare_locked, attested_baseline, claim_attempt,
  unsolved, grade_locked, graded_once, plan_of,
}
use cks_simulator.Scenario.Samples.{
  sample_definition, sample_handler, sample_engine, world_of, inputs_of, intact_signals,
}

pub same_lab : state_eq prepared_lab prepared_lab ≡ true
same_lab = (state_eq_iff prepared_lab prepared_lab).1 refl

abbrev pub sample_world : World Bool
sample_world = world_of prepared_lab false

pub collected :
    collect sample_engine "lab" prepared_lab sample_handler sample_definition sample_world
    ≡ (ok (inputs_of false), sample_world)
unfolding collect follow write_prohibited scenario_context load construct_grade_context
    is_identifier is_canonical_uuid is_in
collected = rw same_lab (rw same_lab refl)

abbrev pub untouched : LiveGrade
untouched =
    summarize (inputs_of false).signals (inputs_of false).evidence
      (graded (inputs_of false).expected (inputs_of false).evidence (inputs_of false).signals)

pub untouched_graded :
    evaluate_live_grade
      (inputs_of false).expected
      (inputs_of false).evidence
      (inputs_of false).signals
    ≡ ok untouched
unfolding evaluate_live_grade
untouched_graded = refl

pub graded_sample : grade sample_engine "lab" "7" sample_world ≡ (ok untouched, sample_world)
unfolding grade locked grade_locked graded_once follow on_error resolve load require zfill_two
    check_lab is_identifier ◌+++◌
graded_sample = rw collected (rw untouched_graded refl)

pub sample_Holds : Holds "full" "lab" prepared_lab sample_world
unfolding load is_identifier is_canonical_uuid
sample_Holds = record {
  found = refl;
  built = prepared_lab-construct;
  canonical = refl;
  writable = refl;
}

pub sample_Attempted : Attempted sample_definition sample_active prepared_lab
sample_Attempted = record { active = refl; scenario = refl; handler = refl }

unfoldable pub sample_Works :
    Works sample_engine "lab" sample_definition prepared_lab sample_active sample_world
unfolding resolve
sample_Works = record {
  handler = sample_handler;
  resolved = refl;
  mutated = world_of prepared_lab true;
  attested = world_of prepared_lab true;
  restores = refl;
  attests = refl;
  files = record { labs = refl; prohibited = refl };
}

abbrev pub back_lab : LabState
back_lab = restored_lab prepared_lab "t7"

abbrev pub back_world : World Bool
back_world = record (world_of prepared_lab true) {
  labs = put "lab" (stored back_lab) sample_world.labs;
  ticks = 1;
}

pub found_sample : require "07" sample_engine.catalog ≡ ok sample_definition
unfolding require zfill_two
found_sample = refl

pub restored_sample : restore sample_engine "lab" "07" sample_world ≡ (ok back_lab, back_world)
unfolding sample_Works
restored_sample =
    (restore_recovers sample_engine "lab" sample_definition prepared_lab sample_active sample_world
      sample_Holds (inl refl) sample_Attempted sample_Works "07" found_sample).0

abbrev pub start_world : World Bool
start_world = world_of validated_lab true

abbrev pub claimed_world : World Bool
claimed_world = record start_world {
  labs = put "lab" (stored prepared_lab) start_world.labs;
  ticks = 2;
}

abbrev pub broken_world : World Bool
broken_world = record claimed_world { live = false }

abbrev pub sample_plan : ScenarioPlan
sample_plan = plan_of sample_engine sample_definition sample_lab_id sample_health sample_health

pub prepare_change :
    change (Op.prepare sample_plan "t7") sample_lab_id validated_lab ≡ ok (replace prepared_lab)
unfolding change prepare_scenario is_canonical_uuid
prepare_change = ground (arith, sample_active-construct, prepared_lab-construct)

pub found_validated : load "full" "lab" start_world.labs ≡ ok validated_lab
unfolding load is_identifier
found_validated = refl

pub store_prepared :
    store "full" "lab" sample_lab_id
      (Op.prepare sample_plan "t7")
      (record start_world { ticks = 2 })
    ≡ (ok prepared_lab, claimed_world)
unfolding store check_arguments
store_prepared =
    ap (λ r. stored_as "full" r (record start_world { ticks = 2 }))
      (mutate_writes "full" "lab" (change (Op.prepare sample_plan "t7") sample_lab_id)
        start_world.labs validated_lab prepared_lab found_validated prepare_change)

pub claimed :
    claim_attempt sample_engine "lab" sample_handler sample_definition validated_lab start_world
    ≡ (ok (sample_health, prepared_lab), claimed_world)
unfolding claim_attempt follow scenario_context require_fingerprint is_sha256 is_identifier
claimed = rw store_prepared refl

pub collected_broken :
    collect sample_engine "lab" prepared_lab sample_handler sample_definition broken_world
    ≡ (ok (inputs_of false), broken_world)
unfolding collect follow write_prohibited scenario_context load construct_grade_context
    is_identifier is_canonical_uuid is_in put
collected_broken = rw same_lab (rw same_lab refl)

pub unsolved_sample :
    unsolved sample_engine "lab" sample_handler sample_definition sample_health prepared_lab
      claimed_world
    ≡ (ok prepared_lab, broken_world)
unfolding unsolved follow scenario_context is_identifier evaluate_live_grade
unsolved_sample = rw collected_broken refl

pub prepared_sample : prepare sample_engine "lab" "07" start_world ≡ (ok prepared_lab, broken_world)
unfolding prepare prepare_locked attested_baseline locked follow on_error resolve load require
    zfill_two check_lab is_identifier
prepared_sample = rw claimed (rw unsolved_sample refl)

pub recovered_sample :
    recover_active_scenario sample_engine "lab" sample_definition intact_signals sample_world ≡ (
      ok (record {
        mode = targeted;
        recovered = true;
        phase = validated;
        detail = "reviewed restore and health attestation passed";
      }),
      back_world,
    )
unfolding recover_active_scenario select_recovery_mode follow is_in
recovered_sample = rw (restored_sample) refl

pub only_handler :
    (d : FullScenarioDefinition) (h : Handler Bool)
    → resolve d sample_engine.handlers ≡ ok h
    → sample_handler ≡ h
unfolding resolve
only_handler d h eq = elim (Bool-cases (str_eq "full.s07.v1" d.handler_identity)) [
  | inl same ↦ cc (rw same at eq)
  | inr other ↦ absurd (cc (rw other at eq))
]

pub same_grader :
    (g : GradeContext → FullScenarioDefinition → Exec Bool GradeInputs)
    → sample_handler.grader ≡ some g
    → (λ ctx d w. (ok (inputs_of w.live), w)) ≡ g
same_grader g eq = cc eq

pub sample_IsTame : IsTame sample_handler
sample_IsTame = record {
  prepares = λ ctx d. record { at = λ w. record { labs = refl; prohibited = refl } };
  restores = λ ctx d. record { at = λ w. record { labs = refl; prohibited = refl } };
  grades = λ g ctx d eq.
      subst (λ k. Leaves (k ctx d)) (same_grader g eq)
        (record { at = λ w. record { labs = refl; prohibited = refl } });
  collects = λ c ctx d s eq. absurd (cc eq);
}

pub sample_AllTame : AllTame sample_engine
sample_AllTame = record {
  attests = λ ctx. record { at = λ w. record { labs = refl; prohibited = refl } };
  handlers = λ d h resolved. subst IsTame (only_handler d h resolved) sample_IsTame;
}

abbrev pub grade_and_prepare : List (Call × String × (Bool → Bool))
grade_and_prepare =
    (grading, "07", λ live. true) ∷ (preparing, "08", λ live. live) ∷ (grading, "07", not) ∷ []
