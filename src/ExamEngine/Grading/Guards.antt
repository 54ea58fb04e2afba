-- ===== src/ExamEngine/Grading/Guards.antt =====
-- What a grade of the exam's tasks has found and left, whatever the handlers do to the world.
use cks_simulator.Common.{◌≡◌, String, true, map, eq_iff, is_in, Fields, ok, arith}
use cks_simulator.LiveGrading.{LiveGrade}
use cks_simulator.Exam.Base.{expected_task_ids, active}
use cks_simulator.Exam.Session.{ExamSession}
use cks_simulator.Exam.Aggregate.{Grades, aggregate_exam_grades}
use cks_simulator.Exam.Store
use cks_simulator.Lab.State.{LabState}
use cks_simulator.Lab.State.Equality.{state_eq_iff}
use cks_simulator.Lab.Store.{load}
use cks_simulator.Scenario.Monad.{World, Exec}
use cks_simulator.Scenario.Returns.{
  after_call, after_lift, after_test, after_guard, pure_returns, locked_returns,
}
use cks_simulator.ExamEngine.Task.{
  ExamEngine, is_baseline, attest_state, validated_lab, collect_task,
}
use cks_simulator.ExamEngine.Grading.{
  load_exam, unchanged, grade_task, grade_task_locked, collect_each,
}

module _ {Live : Type 0} (engine : ExamEngine Live) (lab : String) where
  -- The session that stands in the exam's file is that of the lab that stands in the lab's file.
  pub load_exam_inv :
      (session : ExamSession) (w w' : World Live)
      → load_exam engine lab w ≡ (ok session, w')
      → (w ≡ w')
        × (Store.load lab w.exams ≡ ok session)
        × ((s : LabState) × (load engine.namespace lab w.labs ≡ ok s)
            × (session.lab_id ≡ s.identity.lab_id))
  unfolding load_exam
  load_exam_inv session w w' done = after_lift _ _ _ _ _ done λ found stored r0.
      after_lift _ _ _ _ _ r0 λ s loaded r1. after_guard _ _ _ _ _ _ _ r1 λ own r2.
        let (same, here) = pure_returns _ _ _ _ r2 in
        (
          here,
          rw (← same) stored,
          (s, loaded, rw (← same) ((eq_iff found.lab_id s.identity.lab_id).0 own)),
        )

  pub validated_lab-baseline :
      (s : LabState) (w w' : World Live)
      → validated_lab engine lab w ≡ (ok s, w')
      → is_baseline s ≡ true
  unfolding validated_lab
  validated_lab-baseline s w w' done = after_lift _ _ _ _ _ done λ found loaded r0.
      after_call _ _ _ _ r0 λ t v attested r1.
        after_guard _ _ _ _ _ _ _ r1 λ ready r2. rw (← (pure_returns _ _ _ _ r2).0) ready

  -- What was collected, between two attestations of the same health, behind which the lab's file
  -- holds the same state.
  pub record Undisturbed {A : Type 0} (s : LabState) (collection : Exec Live A) (a : A)
      (w w' : World Live) : Type 0 where
    pub health : String
    pub attested : World Live
    pub collected_in : World Live
    pub health_before : attest_state engine lab s w ≡ (ok health, attested)
    pub collected : collection attested ≡ (ok a, collected_in)
    pub stored_after : load engine.namespace lab collected_in.labs ≡ ok s
    pub health_after : attest_state engine lab s collected_in ≡ (ok health, w')

  pub unchanged-Undisturbed :
      {A : Type 0} (s : LabState) (collection : Exec Live A) (a : A) (w w' : World Live)
      → unchanged engine lab s collection w ≡ (ok a, w')
      → Undisturbed s collection a w w'
  unfolding unchanged
  unchanged-Undisturbed s collection a w w' done = after_call _ _ _ _ done λ health v before r0.
      after_call _ _ _ _ r0 λ b u collected r1. after_lift _ _ _ _ _ r1 λ t loaded r2.
        after_call _ _ _ _ r2 λ health' x after r3. after_test _ _ _ _ _ _ _ r3 λ kept r4.
          let (same, here) = pure_returns _ _ _ _ r4 in
          let same_state : t ≡ s = (state_eq_iff t s).0 (ground arith) in
          let same_health : health' ≡ health = (eq_iff health' health).0 (ground arith) in
          record {
            health = health;
            attested = v;
            collected_in = u;
            health_before = before;
            collected = rw (← same) collected;
            stored_after = rw (← same_state) loaded;
            health_after = rw (← same_state, ← same_health, ← here) after;
          }

  -- A grade of one task, of an exam in progress on an undisturbed lab.
  pub record TaskGraded (task_id : String) (g : LiveGrade) (w w' : World Live) : Type 0 where
    pub session : ExamSession
    pub stored : Store.load lab w.exams ≡ ok session
    pub in_progress : session.status ≡ active
    pub state : LabState
    pub ready : World Live
    pub validated : validated_lab engine lab w ≡ (ok state, ready)
    pub baseline : is_baseline state ≡ true
    pub undisturbed : Undisturbed state (collect_task engine lab state session task_id) g ready w'

  -- A grade of a task that returns is for a task of an exam that is stored as active, was collected on
  -- a validated lab without a scenario, and has left the lab's file and its attested health as they
  -- were before it.
  pub grade_task-TaskGraded :
      (task_id : String) (g : LiveGrade) (w w' : World Live)
      → grade_task engine lab task_id w ≡ (ok g, w')
      → (is_in task_id expected_task_ids ≡ true) × TaskGraded task_id g w w'
  unfolding grade_task grade_task_locked
  grade_task-TaskGraded task_id g w w' done = after_guard _ _ _ _ _ _ _ done λ known r.
      after_call _ _ _ _ (locked_returns _ _ _ _ _ r) λ session v loaded r0.
        after_guard _ _ _ _ _ _ _ r0 λ running r1. after_call _ _ _ _ r1 λ s u validated r2.
          let (here, stored, _) = load_exam_inv session w v loaded in
          (
            known,
            record {
              session = session;
              stored = stored;
              in_progress = ground arith;
              state = s;
              ready = u;
              validated = rw here validated;
              baseline = validated_lab-baseline s v u validated;
              undisturbed = unchanged-Undisturbed s _ g u w' r2;
            },
          )

  -- A receipt of grades that were all collected between two attestations of an undisturbed lab.
  pub record Received (fields : Fields) (w w' : World Live) : Type 0 where
    pub session : ExamSession
    pub stored : Store.load lab w.exams ≡ ok session
    pub grades : Grades
    pub every_task : map (λ entry. entry.0) grades ≡ expected_task_ids
    pub state : LabState
    pub baseline : is_baseline state ≡ true
    pub ready : World Live
    pub undisturbed :
        Undisturbed state (collect_each engine lab state session expected_task_ids) grades ready w'
    pub aggregated : aggregate_exam_grades engine.sha256 session engine.manifest grades ≡ ok fields
