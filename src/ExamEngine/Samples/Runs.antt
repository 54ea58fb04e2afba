-- ===== src/ExamEngine/Samples/Runs.antt =====
-- Runs of the exam engine: a start, a teardown, a grade of one task, and a final receipt.
use cks_simulator.Common.{
  ◌≡◌, refl, map, Bool, true, false, some, [], ◌∷◌, is_in, is_identifier, is_canonical_uuid,
  is_sha256, is_handler_of, zfill_two, ◌+++◌, take_text, drop_hyphens, texts_eq, is_blank,
  round_div, Result, err, ok, Fields, end,
}
use cks_simulator.LiveGrading.{GradeStatus, operator, LiveGrade, evaluate_live_grade}
use cks_simulator.Exam.Base.{expected_task_ids, practice}
use cks_simulator.Exam.Session.{create, construct, claim_preparation, confirm_preparation, activate}
use cks_simulator.Exam.Session.Samples.{sample_uuid, running, closing}
use cks_simulator.Exam.Aggregate.{Grades, aggregate_exam_grades}
use cks_simulator.Exam.Store
use cks_simulator.Lab.State
use cks_simulator.Lab.Machine.{derive_provider_handle, distinct_handles, distinct}
use cks_simulator.Lab.Store.{load, check_lab}
use cks_simulator.Scenario.Definition.{require}
use cks_simulator.Scenario.Monad.{World, follow, write_prohibited, locked}
use cks_simulator.Scenario.Registry.{resolve, scenario_context, construct_grade_context}
use cks_simulator.ExamEngine.Task.{
  report, construct_event, attest_state, validated_lab as baseline_lab, task_state, collect_task,
}
use cks_simulator.ExamEngine.Start.{
  claim_task, prepare_claimed, after_claim, prepare_task, prepare_tasks, activate_prepared,
  activating, or_recovered, start, start_locked,
}
use cks_simulator.Lab.State.Equality.{state_eq, state_eq_iff}
use cks_simulator.Lab.State.Samples.{validated_lab}
use cks_simulator.Scenario.Samples.Runs.{untouched}
use cks_simulator.ExamEngine.Restore.{reversed, restore_task, restore_each, restore_claimed}
use cks_simulator.ExamEngine.Grading.{
  load_exam, unchanged, grade_task, grade_task_locked, collect_each, grade_all, grade_all_locked,
  final_receipt,
}
use cks_simulator.ExamEngine.Teardown.{if_restored, teardown, teardown_locked}
use cks_simulator.ExamEngine.Samples.{sample_exams, exam_world}

abbrev pub new_world : World Bool
new_world = exam_world Store.missing

pub started :
    (start sample_exams "lab" practice 7200 (λ task_id. sample_uuid) new_world).0 ≡ ok running
unfolding start start_locked prepare_tasks prepare_task claim_task after_claim prepare_claimed
    activating activate_prepared or_recovered report construct_event create construct
    claim_preparation confirm_preparation activate Store.load Store.put Store.save Store.create
    Store.exists attest_state baseline_lab task_state collect_task follow write_prohibited locked
    load check_lab require resolve scenario_context construct_grade_context evaluate_live_grade
    is_in is_identifier is_canonical_uuid is_sha256 is_handler_of zfill_two ◌+++◌ take_text
    drop_hyphens State.construct State.construct_active derive_provider_handle distinct_handles
    distinct texts_eq is_blank round_div
started = refl

abbrev pub started_world : World Bool
started_world = (start sample_exams "lab" practice 7200 (λ task_id. sample_uuid) new_world).1

abbrev pub running_world : World Bool
running_world = record (exam_world (Store.stored running)) { live = false }

pub torn_down : (teardown sample_exams "lab" true running_world).0 ≡ ok tt
unfolding teardown teardown_locked if_restored restore_claimed restore_each reversed restore_task
    load_exam Store.load Store.put Store.delete attest_state baseline_lab task_state collect_task
    follow write_prohibited locked load check_lab require resolve scenario_context
    construct_grade_context evaluate_live_grade is_in is_identifier is_canonical_uuid is_sha256
    is_handler_of zfill_two ◌+++◌ take_text drop_hyphens State.construct State.construct_active
    derive_provider_handle distinct_handles distinct texts_eq is_blank round_div
torn_down = refl

abbrev pub torn_down_world : World Bool
torn_down_world = (teardown sample_exams "lab" true running_world).1

pub same_lab : state_eq validated_lab validated_lab ≡ true
same_lab = (state_eq_iff validated_lab validated_lab).1 refl

pub graded : (grade_task sample_exams "lab" "07" running_world).0 ≡ ok untouched
unfolding grade_task grade_task_locked unchanged load_exam Store.load attest_state baseline_lab
    task_state collect_task follow write_prohibited locked load check_lab require resolve
    scenario_context construct_grade_context evaluate_live_grade is_in is_identifier
    is_canonical_uuid is_sha256 is_handler_of zfill_two ◌+++◌ take_text drop_hyphens State.construct
    State.construct_active derive_provider_handle distinct_handles distinct texts_eq is_blank
    round_div
graded = rw same_lab refl

abbrev pub graded_world : World Bool
graded_world = (grade_task sample_exams "lab" "07" running_world).1

abbrev pub closing_world : World Bool
closing_world = exam_world (Store.stored closing)

abbrev pub received_world : World Bool
received_world = (final_receipt sample_exams "lab" closing_world).1

abbrev pub passing : LiveGrade
passing = record {
  status = GradeStatus.pass;
  score = 10000;
  earned_weight = 100;
  possible_weight = 100;
  criterion_denominator = 1;
  evidence_count = 1;
  criteria =
      record {
        criterion_id = "switch";
        label = "switch";
        weight = 100;
        passed = true;
        trust_source = some operator;
        detail = "seen";
        evidence_present = true;
      }
      ∷ [];
  lab_broken = false;
  tampered = false;
  signal_detail = "";
}

abbrev pub passing_grades : Grades
passing_grades = map (λ task_id. (task_id, passing)) expected_task_ids

pub collected :
    collect_each sample_exams "lab" validated_lab closing expected_task_ids closing_world
    ≡ (ok passing_grades, record closing_world { ticks = 17 })
unfolding collect_each attest_state baseline_lab task_state collect_task follow write_prohibited
    locked load check_lab require resolve scenario_context construct_grade_context
    evaluate_live_grade is_in is_identifier is_canonical_uuid is_sha256 is_handler_of zfill_two
    ◌+++◌ take_text drop_hyphens State.construct State.construct_active derive_provider_handle
    distinct_handles distinct texts_eq is_blank round_div
collected = refl

pub graded_all :
    grade_all sample_exams "lab" closing_world
    ≡ (ok passing_grades, record closing_world { ticks = 17 })
unfolding grade_all grade_all_locked unchanged load_exam Store.load attest_state baseline_lab follow
    locked load check_lab scenario_context is_identifier
graded_all = rw collected (rw same_lab refl)

abbrev pub value_of : Result Fields → Fields
value_of (ok fields) = fields
value_of (err e) = end

abbrev pub receipt : Fields
receipt =
    value_of
      (aggregate_exam_grades sample_exams.sha256 closing sample_exams.manifest passing_grades)

pub received : (final_receipt sample_exams "lab" closing_world).0 ≡ ok receipt
unfolding final_receipt load_exam aggregate_exam_grades Store.load follow load is_identifier
    check_lab is_in
received = rw graded_all refl
