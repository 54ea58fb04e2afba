-- ===== src/ExamEngine/Samples.antt =====
-- An exam of 17 tasks whose handlers break and mend one switch.
pub mod Runs
mod Interrupted
use cks_simulator.Common.{
  ℕ, String, Bool, true, false, none, some, map, ◌+++◌, ◌==◌, if◌then◌else◌, ok,
}
use cks_simulator.Exam.Base.{expected_task_ids}
use cks_simulator.Exam.Session.{ExamSession}
use cks_simulator.Exam.Aggregate.Samples.{sample_manifest, sample_sha256}
use cks_simulator.Exam.Store
use cks_simulator.Lab.State.Samples.{sample_health, validated_lab}
use cks_simulator.Scenario.Definition.{FullScenarioDefinition}
use cks_simulator.Scenario.Monad.{World}
use cks_simulator.Scenario.Samples.{sample_definition, sample_handler, world_of}
use cks_simulator.ExamEngine.Task.{ExamEngine}

abbrev handler_of : String → String
handler_of task_id = "full.s" +++ task_id +++ ".v1"

abbrev definition_of : String → FullScenarioDefinition
definition_of task_id = record sample_definition {
  scenario_id = task_id;
  handler_identity = handler_of task_id;
}

abbrev pub sample_exams : ExamEngine Bool
sample_exams = record {
  namespace = "full";
  manifest = sample_manifest;
  catalog = map definition_of expected_task_ids;
  handlers = map (λ task_id. (handler_of task_id, sample_handler)) expected_task_ids;
  attest_health = λ ctx w. (ok sample_health, w);
  references = none;
  compose_reference_apiserver = none;
  progress = none;
  encoded_size = λ session. 1;
  sha256 = sample_sha256;
  redacted = λ limit text. text;
}

-- The exam is created at instant 5, and activated later.
abbrev pub exam_world : Store.Slot → World Bool
exam_world slot = record (world_of validated_lab true) {
  exams = λ lab. slot;
  instants = λ tick. if tick == 0 then 5 else 1000000;
}
