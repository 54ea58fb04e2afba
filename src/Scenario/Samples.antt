-- ===== src/Scenario/Samples.antt =====
-- An engine with one scenario, whose handler breaks and mends a single switch, and a lab for it.
pub mod Runs
use cks_simulator.Common.{
  ◌≡◌, refl, String, Bool, true, false, none, some, [], ◌∷◌, is_identifier, is_canonical_uuid,
  is_sha256, ok,
}
use cks_simulator.LiveGrading.{operator, GradeStatus, LiveGrade, evaluate_live_grade}
use cks_simulator.Exam.Store
use cks_simulator.Lab.State.{LabState}
use cks_simulator.Lab.State.Samples.{
  sample_lab_id, sample_health, sample_active, validated_lab, prepared_lab, prepared_lab-construct,
}
use cks_simulator.Lab.Store.{Disk, stored, put, missing}
use cks_simulator.Scenario.Definition.{FullScenarioDefinition, RecoverySignals}
use cks_simulator.Scenario.Monad.{World}
use cks_simulator.Scenario.Registry.{Object, GradeInputs, Handler}
use cks_simulator.Scenario.Probe.{Engine}

abbrev pub sample_definition : FullScenarioDefinition
sample_definition = record {
  scenario_id = "07";
  title = "Restrict an API";
  support = "supported";
  target_role = "candidate";
  prerequisites = "kubernetes" ∷ [];
  recovery_class = "restore-files";
  handler_identity = "full.s07.v1";
  untouched_baseline = "baseline.07";
  restore_fingerprint = "restore.07";
}

-- One criterion, which the switch decides.
abbrev pub inputs_of : Bool → GradeInputs
inputs_of solved = record {
  expected = record { criterion_id = "switch"; label = "switch"; weight = 100 } ∷ [];
  evidence =
      record {
        criterion_id = "switch";
        label = "switch";
        weight = 100;
        passed = solved;
        trust_source = operator;
        detail = "seen";
      }
      ∷ [];
  signals = record { lab_broken = false; tampered = false; detail = "" };
}

abbrev pub sample_handler : Handler Bool
sample_handler = record {
  mutator = record { identity = 1; methods = "prepare" ∷ "restore" ∷ []; has_attributes = false };
  probe = record { identity = 2; methods = "grade" ∷ []; has_attributes = false };
  prepare = λ ctx d w. (ok sample_health, record w { live = false });
  restore = λ ctx d w. (ok sample_health, record w { live = true });
  grader = some (λ ctx d w. (ok (inputs_of w.live), w));
  snapshot_collector = none;
  snapshot_evaluator = none;
  expected_prepared = λ ctx d attempt_id. ok sample_health;
  expected_restored = λ ctx d attempt_id. ok sample_health;
}

abbrev pub sample_engine : Engine Bool
sample_engine = record {
  namespace = "full";
  catalog = sample_definition ∷ [];
  handlers = ("full.s07.v1", sample_handler) ∷ [];
  attest_health = λ ctx w. (ok sample_health, w);
}

abbrev pub world_of : LabState → Bool → World Bool
world_of s live = record {
  labs = λ lab. stored s;
  exams = λ lab. Store.missing;
  live = live;
  writes_prohibited = false;
  clock = λ tick. "t7";
  instants = λ tick. 0;
  drawn = λ tick. sample_lab_id;
  ticks = 0;
}

abbrev pub intact_signals : RecoverySignals
intact_signals = record {
  api_available = true;
  operator_transport_available = true;
  guest_identity_intact = true;
}
