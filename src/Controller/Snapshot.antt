-- ===== src/Controller/Snapshot.antt =====
-- `snapshot`, `check` and `update_progress`: what the browser may see and change, and when.
use cks_simulator.Common.{◌≡◌, ◌≢◌, String, true, false, is_in, Fails, arith}
use cks_simulator.Exam.Base.{expected_task_ids, practice, active}
use cks_simulator.Exam.Session.{ExamSession, is_expired}
use cks_simulator.Controller.Monad.{World}
use cks_simulator.Controller.{Setup, check}
use cks_simulator.Controller.Submit.{Holds, load-Holds}

module _ (c : Setup) (w : World) (s : ExamSession) (h : Holds c w s) where
  -- What a check asks before it calls the grader of the task.
  pub record CanCheck (task_id : String) : Type 0 where
    pub known : is_in task_id expected_task_ids ≡ true
    pub running : s.status ≡ active
    pub practising : s.mode ≡ practice
    pub in_time : is_expired (w.clock w.ticks) s ≡ false

  -- A valid session that is not in practice mode is stored: every check raises, changes no stored
  -- session and calls no grader.
  pub check_exam_mode :
      (task_id : String)
      → s.mode ≢ practice
      → Fails (check c task_id w).0
        × ((check c task_id w).1.disk ≡ w.disk)
        × ((check c task_id w).1.events ≡ w.events)
  unfolding check
  check_exam_mode task_id hidden = ground (arith, load-Holds c w s h)
