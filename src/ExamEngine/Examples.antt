-- ===== src/ExamEngine/Examples.antt =====
-- The theorems on the exam engine at an exam of 17 tasks.
use cks_simulator.Common.{◌≡◌, ap, true, is_in}
use cks_simulator.Exam.Base.{expected_task_ids}
use cks_simulator.Scenario.Samples.Runs.{untouched}
use cks_simulator.ExamEngine.Grading.Guards.{TaskGraded, grade_task-TaskGraded}
use cks_simulator.ExamEngine.Teardown.Deletes.{TornDown, teardown-TornDown}
use cks_simulator.ExamEngine.Samples.{sample_exams}
use cks_simulator.ExamEngine.Samples.Runs.{
  running_world, torn_down, torn_down_world, graded, graded_world,
}

teardown-TornDown_example : TornDown sample_exams "lab" true running_world torn_down_world
teardown-TornDown_example =
    teardown-TornDown sample_exams "lab" true running_world torn_down_world
      (ap (λ r. (r, torn_down_world)) torn_down)

grade_task-TaskGraded_example :
    (is_in "07" expected_task_ids ≡ true)
    × TaskGraded sample_exams "lab" "07" untouched running_world graded_world
grade_task-TaskGraded_example =
    grade_task-TaskGraded sample_exams "lab" "07" untouched running_world graded_world
      (ap (λ r. (r, graded_world)) graded)
