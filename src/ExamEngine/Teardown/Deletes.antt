-- ===== src/ExamEngine/Teardown/Deletes.antt =====
-- What a teardown that returns has done before it deleted the session.
use cks_simulator.Common.{
  ◌≡◌, refl, ap, sym, ◌⊎◌, inl, inr, String, Bool, true, false, not, ◌&&◌, Option, none, some, List,
  [], ◌∷◌, eq_iff, Exception, Result, ok, err, arith,
}
use cks_simulator.Exam.Session.{ExamSession}
use cks_simulator.Exam.Store
use cks_simulator.Lab.State.{LabState}
use cks_simulator.Scenario.Monad.{World}
use cks_simulator.Scenario.Returns.{after_call, after_test, after_guard, locked_returns}
use cks_simulator.ExamEngine.Task.{ExamEngine, written, is_baseline, attest_state}
use cks_simulator.ExamEngine.Restore.{
  reversed, restore_task, restore_each, restore_claimed, failure_of, with_error,
}
use cks_simulator.ExamEngine.Grading.Guards.{load_exam_inv, validated_lab-baseline}
use cks_simulator.ExamEngine.Teardown.{is_open, if_restored, teardown, teardown_locked, same_health}

pair_of : {A B : Type 0} {a : A} {b : B} → (p : A × B) → p.0 ≡ a → p.1 ≡ b → p ≡ (a, b)
pair_of (x, y) h k = cc

closed_or_forced : (b force : Bool) → b && not force ≡ false → (b ≡ false) ⊎ (force ≡ true)
closed_or_forced true true h = inr refl
closed_or_forced true false h = absurd (cc h)
closed_or_forced false force h = inl refl

module _ {Live : Type 0} (engine : ExamEngine Live) (s : LabState) (session : ExamSession) where
  -- One restore after the other, each of which has returned.
  pub data Restores : List String → World Live → World Live → Type 0 where
    all_restored : {w : World Live} → Restores [] w w
    restored_next :
        {t : String} {ts : List String} {v w w' : World Live}
        → restore_task engine s session t w ≡ (ok tt, v)
        → Restores ts v w'
        → Restores (t ∷ ts) w w'

  no_error :
      (r : Result (Unit {0})) (errors : List Exception)
      → with_error r errors ≡ []
      → (r ≡ ok tt) × (errors ≡ [])
  no_error (ok u) errors h = (refl, h)
  no_error (err e) errors h = absurd (cc h)

  restore_each-Restores :
      (ts : List String) (w w' : World Live)
      → restore_each engine s session ts w ≡ ([], w')
      → Restores ts w w'
  unfolding restore_each
  restore_each-Restores [] w w' done = rw (ap (λ p. p.1) done) all_restored
  restore_each-Restores (t ∷ ts) w w' done =
      let (returned, clean) = no_error _ _ (ap (λ p. p.0) done) in
      let here = ap (λ p. p.1) done in
      let v = (restore_task engine s session t w).1 in
      restored_next (ap (λ r. (r, v)) returned)
        (restore_each-Restores ts v w' (pair_of (restore_each engine s session ts v) clean here))

  no_failure : (errors : List Exception) → failure_of errors ≡ none → errors ≡ []
  no_failure [] h = refl
  no_failure (e ∷ es) h = absurd (cc h)

  pub restore_claimed-Restores :
      (w w' : World Live)
      → restore_claimed engine s session w ≡ (ok none, w')
      → Restores (reversed session.claimed_task_ids) w w'
  unfolding restore_claimed
  restore_claimed-Restores w w' done =
      let ts = reversed session.claimed_task_ids in
      let clean = no_failure (restore_each engine s session ts w).0 (cc (ap (λ p. p.0) done)) in
      restore_each-Restores ts w w'
        (pair_of (restore_each engine s session ts w) clean (ap (λ p. p.1) done))

module _ {Live : Type 0} (engine : ExamEngine Live) (lab : String) (force_active : Bool) where
  -- The session is gone, after every claimed task was restored, the last one first, and the lab's
  -- health was attested to be the trusted one.
  pub record TornDown (w w' : World Live) : Type 0 where
    pub session : ExamSession
    pub stored : Store.load lab w.exams ≡ ok session
    pub allowed : (is_open session.status ≡ false) ⊎ (force_active ≡ true)
    pub state : LabState
    pub baseline : is_baseline state ≡ true
    pub ready : World Live
    pub mended : World Live
    pub restores : Restores engine state session (reversed session.claimed_task_ids) ready mended
    pub health : String
    pub attested : World Live
    pub health_after : attest_state engine lab state mended ≡ (ok health, attested)
    pub trusted : state.health_fingerprint ≡ some health
    pub deleted : Store.delete lab session.session_id attested.exams ≡ ok w'.exams
    pub gone : w'.exams lab ≡ Store.missing

  health_known :
      (o : Option String) (health : String) → same_health o health ≡ true → o ≡ some health
  health_known none health h = absurd (cc h)
  health_known (some known) health h = ap some (sym ((eq_iff health known).0 h))

  delete_gone :
      (id : String) (disk disk' : Store.Disk)
      → Store.delete lab id disk ≡ ok disk'
      → disk' lab ≡ Store.missing
  unfolding Store.delete Store.put
  delete_gone id disk disk' h = ground (arith, eq_iff lab lab)

  written_returns :
      (r : Result Store.Disk) (w w' : World Live) → written r w ≡ (ok tt, w') → r ≡ ok w'.exams
  written_returns (ok disk) w w' h = ap (λ p. ok p.1.exams) h
  written_returns (err e) w w' h = absurd (cc h)

  if_restored-none :
      (session : ExamSession) (o : Option Exception) (w w' : World Live)
      → if_restored engine session o w ≡ (ok tt, w')
      → (o ≡ none) × (w ≡ w')
  unfolding if_restored
  if_restored-none session none w w' h = (refl, ap (λ p. p.1) h)
  if_restored-none session (some e) w w' h = after_call _ _ _ _ h λ u v recorded r0. absurd (cc r0)

  -- A teardown that returns was of a stored exam that was not in progress, or was forced; it has
  -- restored every claimed task, the last one first, and attested the trusted health, before it has
  -- deleted the session; no file of the exam is left.
  pub teardown-TornDown :
      (w w' : World Live) → teardown engine lab force_active w ≡ (ok tt, w') → TornDown w w'
  unfolding teardown teardown_locked
  teardown-TornDown w w' done =
      after_call _ _ _ _ (locked_returns _ _ _ _ _ done) λ session v loaded r0.
        after_test _ _ _ _ _ _ _ r0 λ allowed r1. after_call _ _ _ _ r1 λ s u validated r2.
          after_call _ _ _ _ r2 λ o x restored r3. after_call _ _ _ _ r3 λ _ y clean r4.
            after_call _ _ _ _ r4 λ health z attested r5. after_guard _ _ _ _ _ _ _ r5 λ trusted r6.
              let (here, stored, _) = load_exam_inv engine lab session w v loaded in
              let (nothing, same) = if_restored-none session o x y clean in
              let deleted = written_returns _ z w' r6 in
              record {
                session = session;
                stored = stored;
                allowed = closed_or_forced (is_open session.status) force_active allowed;
                state = s;
                baseline = validated_lab-baseline engine lab s v u validated;
                ready = u;
                mended = x;
                restores = restore_claimed-Restores engine s session u x (rw nothing at restored);
                health = health;
                attested = z;
                health_after = rw same attested;
                trusted = health_known s.health_fingerprint health trusted;
                deleted = deleted;
                gone = delete_gone session.session_id z.exams w'.exams deleted;
              }
