-- ===== src/Exam/Manifest/Built.antt =====
-- What a manifest that `ExamManifest.__post_init__` lets through satisfies.
use cks_simulator.Common.{◌≡◌, map, texts_eq_iff, ok, arith}
use cks_simulator.Exam.Base.{expected_task_ids}
use cks_simulator.Exam.Manifest.{ExamManifest, total_weight, construct_manifest}

module _ (m n : ExamManifest) (built : construct_manifest m ≡ ok n) where
  pub tasks_expected : map (λ t. t.task_id) m.tasks ≡ expected_task_ids
  unfolding construct_manifest
  tasks_expected = ground (arith, texts_eq_iff (map (λ t. t.task_id) m.tasks) expected_task_ids)

  pub weights_total : total_weight m.tasks ≡ 100
  unfolding construct_manifest
  weights_total = ground arith
