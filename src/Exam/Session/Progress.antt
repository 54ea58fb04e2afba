-- ===== src/Exam/Session/Progress.antt =====
-- `update_progress`: what one request of the candidate changes.
use cks_simulator.Common.{
  ◌+◌, ◌≡◌, refl, ◌↔◌, String, Bool, true, false, Option, List, [], ◌∷◌, map, if◌then◌else◌, is_in,
  is_canonical_uuid, str_eq, All, ok, arith,
}
use cks_simulator.Exam.Base.{expected_task_ids, active, Instant}
use cks_simulator.Exam.Session.{
  ExamTaskProgress, ExamSession, task_ids, given, update_tasks, update_progress, is_expired,
}
use cks_simulator.Exam.Session.Valid.{IsValid, construct_iff, construct-IsValid}

-- What `ExamTaskProgress.__post_init__` has checked.
abbrev pub IsProgress : ExamTaskProgress → Type 0
IsProgress p = (is_in p.task_id expected_task_ids ≡ true) × (is_canonical_uuid p.attempt_id ≡ true)

module _ (t : String) (visited flagged completed : Option Bool) where
  -- The flags that the request gives, on the task that it names.
  abbrev pub with_flags : ExamTaskProgress → ExamTaskProgress
  with_flags p =
      if str_eq p.task_id t
      then record p {
        visited = given visited p.visited;
        flagged = given flagged p.flagged;
        completed = given completed p.completed;
      }
      else p

  update_tasks_lem :
      (ps : List ExamTaskProgress)
      → All IsProgress ps
      → update_tasks t visited flagged completed ps ≡ ok (map with_flags ps)
  unfolding update_tasks
  update_tasks_lem [] h = refl
  update_tasks_lem (p ∷ ps) h = ground (arith, update_tasks_lem ps h.1)

  task_ids-with_flags : (ps : List ExamTaskProgress) → task_ids (map with_flags ps) ≡ task_ids ps
  task_ids-with_flags [] = refl
  task_ids-with_flags (p ∷ ps) = ground (arith, task_ids-with_flags ps)

  pub All-with_flags :
      (ps : List ExamTaskProgress) → All IsProgress ps → All IsProgress (map with_flags ps)
  All-with_flags [] h = tt
  All-with_flags (p ∷ ps) h = ground (arith, All-with_flags ps h.1)

  abbrev pub with_progress : Bool → ExamSession → ExamSession
  with_progress selected s = record s {
    selected_task_id = if selected then t else s.selected_task_id;
    tasks = map with_flags s.tasks;
    revision = s.revision + 1;
  }

  with_progress-IsValid :
      (selected : Bool) (s : ExamSession)
      → IsValid s
      → is_in t expected_task_ids ≡ true
      → IsValid (with_progress selected s)
  with_progress-IsValid selected s v known = ground (arith, task_ids-with_flags s.tasks)

  -- A progress update of a valid session with valid tasks succeeds exactly while the exam is
  -- active, before its deadline, for a task of the exam; it then sets the given flags of that
  -- task, selects it if asked, and adds one revision.
  pub update_progress_iff :
      (selected : Bool) (now : Instant) (s u : ExamSession)
      → IsValid s
      → All IsProgress s.tasks
      → (update_progress t selected visited flagged completed now s ≡ ok u) ↔ (
          (s.status ≡ active)
          × (is_expired now s ≡ false)
          × (is_in t expected_task_ids ≡ true)
          × (u ≡ with_progress selected s))
  unfolding update_progress
  update_progress_iff selected now s u v ps = (
    (λ h. ground (arith, update_tasks_lem s.tasks ps, construct_iff (with_progress selected s) u)),
    (λ h. ground (
      arith,
      update_tasks_lem s.tasks ps,
      construct-IsValid (with_progress selected s) (with_progress-IsValid selected s v h.2),
    )),
  )
