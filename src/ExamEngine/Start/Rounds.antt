-- ===== src/ExamEngine/Start/Rounds.antt =====
-- What a start that returns has done, whatever the handlers do to the world.
use cks_simulator.Common.{
  ℕ, ◌≡◌, refl, ap, ◌∙◌, String, true, false, some, List, [], ◌∷◌, eq_iff, Result, ok, err, Checked,
  arith,
}
use cks_simulator.LiveGrading.{GradeStatus, LiveGrade}
use cks_simulator.Exam.Base.{expected_task_ids, ExamMode, Instant}
use cks_simulator.Exam.Session.{
  ExamSession, create, claim_preparation, confirm_preparation, activate,
}
use cks_simulator.Exam.Store
use cks_simulator.Lab.State.{ActiveScenario, LabState}
use cks_simulator.Scenario.Definition.{FullScenarioDefinition, require}
use cks_simulator.Scenario.Monad.{World, Exec}
use cks_simulator.Scenario.Registry.{ScenarioContext, Handler, resolve}
use cks_simulator.Scenario.Returns.{
  after_call, after_lift, after_attempt, after_guard, pure_returns,
}
use cks_simulator.ExamEngine.Task.{
  ExamEngine, is_baseline, save_session, attest_state, validated_lab, collect_task,
}
use cks_simulator.ExamEngine.Start.{
  claim_task, prepare_claimed, settled, after_claim, prepare_task, unless_raised, prepare_tasks,
}

unless_raised_inv :
    {Live A : Type 0} (rest : ExamSession → Exec Live (ExamSession × Result A))
    (p : ExamSession × Checked) (after : ExamSession) (a : A) (w w' : World Live)
    → unless_raised rest p w ≡ (ok (after, ok a), w')
    → (p ≡ (p.0, ok tt)) × (rest p.0 w ≡ (ok (after, ok a), w'))
unless_raised_inv rest (session, ok _) after a w w' h = (refl, h)
unless_raised_inv rest (session, err e) after a w w' h = absurd (cc (ap (λ p. p.0) h))

module _ {Live : Type 0} (engine : ExamEngine Live) (lab : String) (s : LabState) where
  -- One round: the claim is stored before the task is changed, the change was observed to have the
  -- fingerprint of the view, the untouched task is graded FAIL with no points, and the confirmation
  -- is stored.
  pub record Round (task_id : String) (before after : ExamSession) (w w' : World Live)
      : Type 0 where
    pub claimed : ExamSession
    pub claim : claim_preparation task_id before ≡ ok claimed
    pub claimed_in : World Live
    pub claim_saved : save_session engine claimed before.revision w ≡ (ok tt, claimed_in)
    pub definition : FullScenarioDefinition
    pub known : require task_id engine.catalog ≡ ok definition
    pub handler : Handler Live
    pub resolved : resolve definition engine.handlers ≡ ok handler
    pub ctx : ScenarioContext
    pub active : ActiveScenario
    pub viewed_in : World Live
    pub mutated_in : World Live
    pub mutated :
        handler.prepare ctx definition viewed_in ≡ (ok active.prepared_fingerprint, mutated_in)
    pub untouched : LiveGrade
    pub graded_in : World Live
    pub graded : collect_task engine lab s claimed task_id mutated_in ≡ (ok untouched, graded_in)
    pub failing : untouched.status ≡ GradeStatus.fail
    pub worthless : untouched.score ≡ 0
    pub confirmed : confirm_preparation task_id claimed ≡ ok after
    pub saved : save_session engine after claimed.revision graded_in ≡ (ok tt, w')

  pub data Rounds : List String → ExamSession → ExamSession → World Live → World Live → Type 0 where
    no_rounds : {session : ExamSession} {w : World Live} → Rounds [] session session w w
    next_round :
        {t : String} {ts : List String} {a b c : ExamSession} {w v w' : World Live}
        → Round t a b w v
        → Rounds ts b c v w'
        → Rounds (t ∷ ts) a c w w'

  settled_inv :
      (session later : ExamSession) (r : Result ExamSession)
      → settled session r ≡ (later, ok tt)
      → r ≡ ok later
  settled_inv session later (ok b) h = ap (λ p. ok p.0) h
  settled_inv session later (err e) h = absurd (cc (ap (λ p. p.1) h))

  after_claim_inv :
      (task_id : String) (before after : ExamSession) (r : Result ExamSession) (w w' : World Live)
      → after_claim engine lab s task_id before r w ≡ (ok (after, ok tt), w')
      → (c : ExamSession) × (r ≡ ok c) × (prepare_claimed engine lab s task_id c w ≡ (ok after, w'))
  unfolding after_claim
  after_claim_inv task_id before after (err e) w w' h = absurd (cc (ap (λ p. p.0) h))
  after_claim_inv task_id before after (ok c) w w' h = after_attempt _ _ _ _ h λ q v tried r0.
      let (same, here) = pure_returns _ _ _ _ r0 in
      (c, refl, rw (← settled_inv c after q same, ← here) tried)

  prepare_task-Round :
      (task_id : String) (before after : ExamSession) (w w' : World Live)
      → prepare_task engine lab s task_id before w ≡ (ok (after, ok tt), w')
      → Round task_id before after w w'
  unfolding prepare_task claim_task prepare_claimed
  prepare_task-Round task_id before after w w' done = after_attempt _ _ _ _ done λ r v tried r0.
      let (c, claimed_ok, prepared) = after_claim_inv task_id before after r v w' r0 in
      after_lift _ _ _ _ _ (rw claimed_ok at tried) λ claimed claim r1.
        after_call _ _ _ _ r1 λ _ v1 claim_saved r2.
          let (same, here) = pure_returns _ _ _ _ r2 in
          after_lift _ _ _ _ _ prepared λ d known r3. after_call _ _ _ _ r3 λ _ v2 reported r4.
            after_lift _ _ _ _ _ r4 λ h resolved r5. after_call _ _ _ _ r5 λ view v3 viewed r6.
              after_lift _ _ _ _ _ r6 λ ctx named r7.
                after_call _ _ _ _ r7 λ observed v4 mutated r8.
                  after_guard _ _ _ _ _ _ _ r8 λ fits r9. after_call _ _ _ _ r9 λ g v5 graded r10.
                    after_guard _ _ _ _ _ _ _ r10 λ failing r11.
                      after_lift _ _ _ _ _ r11 λ last confirmed r12.
                        after_call _ _ _ _ r12 λ _ v6 saved r13.
                          let (same', here') = pure_returns _ _ _ _ r13 in
                          record {
                            claimed = c;
                            claim = rw (← same) claim;
                            claimed_in = v;
                            claim_saved = rw (← same, ← here) claim_saved;
                            definition = d;
                            known = known;
                            handler = h;
                            resolved = resolved;
                            ctx = ctx;
                            active = view.1;
                            viewed_in = v3;
                            mutated_in = v4;
                            mutated =
                                rw (← (eq_iff observed view.1.prepared_fingerprint).0 fits) mutated;
                            untouched = g;
                            graded_in = v5;
                            graded = graded;
                            failing = ground arith;
                            worthless = ground arith;
                            confirmed = rw (← same') confirmed;
                            saved = rw (← same', ← here') saved;
                          }

  pub prepare_tasks-Rounds :
      (ts : List String) (before after : ExamSession) (w w' : World Live)
      → prepare_tasks engine lab s ts before w ≡ (ok (after, ok tt), w')
      → Rounds ts before after w w'
  unfolding prepare_tasks
  prepare_tasks-Rounds [] before after w w' done =
      let (same, here) = pure_returns _ _ _ _ done in rw (← ap (λ p. p.0) same, ← here) no_rounds
  prepare_tasks-Rounds (t ∷ ts) before after w w' done = after_call _ _ _ _ done λ p v one r0.
      let (returned, rest) =
        unless_raised_inv (λ later. prepare_tasks engine lab s ts later) p after tt v w' r0 in
      next_round (prepare_task-Round t before p.0 w v (one ∙ ap (λ q. (ok q, v)) returned))
        (prepare_tasks-Rounds ts p.0 after v w' rest)

module _ {Live : Type 0} (engine : ExamEngine Live) (lab : String) where
  -- The exam that is returned: every task was prepared in its round, and the lab's health was attested
  -- to be the trusted one before the exam was activated.
  pub record Started (mode : ExamMode) (duration : ℕ) (attempt_id : String → String)
      (running : ExamSession) (w : World Live) : Type 0 where
    pub state : LabState
    pub baseline : is_baseline state ≡ true
    pub ready : World Live
    pub validated : validated_lab engine lab w ≡ (ok state, ready)
    pub unused : Store.exists lab ready.exams ≡ ok false
    pub created_at : Instant
    pub session_id : String
    pub first : ExamSession
    pub created :
        create lab state.identity.lab_id mode engine.manifest duration created_at session_id
          attempt_id
        ≡ ok first
    pub opened : World Live
    pub last : ExamSession
    pub prepared_in : World Live
    pub rounds : Rounds engine lab state expected_task_ids first last opened prepared_in
    pub health : String
    pub attested_in : World Live
    pub attested : attest_state engine lab state prepared_in ≡ (ok health, attested_in)
    pub trusted : state.health_fingerprint ≡ some health
    pub now : Instant
    pub activated : activate now last ≡ ok running
