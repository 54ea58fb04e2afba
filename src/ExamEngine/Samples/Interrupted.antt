-- ===== src/ExamEngine/Samples/Interrupted.antt =====
-- cks_simulator/exam_engine.py, `start`, with a progress callback that raises at the last event.
use cks_simulator.Common.{
  Kind, if◌then◌else◌, ◌≡◌, refl, Bool, true, some, is_in, is_identifier, is_canonical_uuid,
  is_sha256, is_handler_of, zfill_two, ◌+++◌, take_text, drop_hyphens, texts_eq, is_blank,
  round_div, Result, err, ok,
}
use cks_simulator.LiveGrading.{evaluate_live_grade}
use cks_simulator.Exam.Base.{practice}
use cks_simulator.Exam.Session.{
  ExamSession, create, construct, claim_preparation, confirm_preparation, activate, fail,
}
use cks_simulator.Exam.Session.Samples.{sample_uuid, running}
use cks_simulator.Exam.Store
use cks_simulator.Lab.State
use cks_simulator.Lab.Machine.{derive_provider_handle, distinct_handles, distinct}
use cks_simulator.Lab.Store.{load, check_lab}
use cks_simulator.Scenario.Definition.{require}
use cks_simulator.Scenario.Monad.{World, Exec, follow, write_prohibited, locked}
use cks_simulator.Scenario.Registry.{resolve, scenario_context, construct_grade_context}
use cks_simulator.ExamEngine.Task.{
  ProgressEvent, report, construct_event, attest_state, validated_lab as baseline_lab, task_state,
  collect_task,
}
use cks_simulator.ExamEngine.Start.{
  claim_task, prepare_claimed, after_claim, prepare_task, prepare_tasks, activate_prepared,
  activating, or_recovered, start, start_locked,
}
use cks_simulator.ExamEngine.Restore.{reversed, restore_task, restore_each, restore_claimed}
use cks_simulator.ExamEngine.Samples.{sample_exams}
use cks_simulator.ExamEngine.Samples.Runs.{new_world}

-- It raises at the last event only.
abbrev interrupted : ProgressEvent → Exec Bool (Unit {0})
interrupted event w =
    if event.is_completed
    then (err (record { kind = Kind.other; message = "interrupt" }), w)
    else (ok tt, w)

abbrev interrupted_start : Result ExamSession × World Bool
interrupted_start =
    start (record sample_exams { progress = some interrupted }) "lab" practice 7200
      (λ task_id. sample_uuid) new_world

-- The exam stays stored as active although its tasks were restored, and a conflict masks the error of
-- the callback.
interrupted_active :
    (interrupted_start.0
      ≡ err (record { kind = Kind.exam_conflict_error; message = "exam session revision changed" }))
    × ((interrupted_start.1).exams "lab" ≡ Store.stored running)
    × ((interrupted_start.1).live ≡ true)
unfolding start start_locked prepare_tasks prepare_task claim_task after_claim prepare_claimed
    activating activate_prepared or_recovered report construct_event create construct
    claim_preparation confirm_preparation activate Store.load Store.put Store.save Store.create
    Store.exists attest_state baseline_lab task_state collect_task follow write_prohibited locked
    load check_lab require resolve scenario_context construct_grade_context evaluate_live_grade
    is_in is_identifier is_canonical_uuid is_sha256 is_handler_of zfill_two ◌+++◌ take_text
    drop_hyphens State.construct State.construct_active derive_provider_handle distinct_handles
    distinct texts_eq is_blank round_div restore_claimed restore_each restore_task reversed fail
interrupted_active = (refl, refl, refl)
