-- ===== src/Exam/Session/Lifecycle.antt =====
-- Histories of a session: sequences of operations, of which those that raise change nothing.
use cks_simulator.Common.{
  ◌≤◌, ◌≡◌, ◌≢◌, refl, sym, ◌∙◌, ◌⊎◌, inl, inr, List, [], ◌∷◌, Result, ok, err, arith,
}
use cks_simulator.Exam.Base.{ExamStatus, preparing, submitted}
use cks_simulator.Exam.Session.{
  ExamSession, claim_preparation, confirm_preparation, activate, update_progress, begin_submit,
  complete_submit,
}
use cks_simulator.Exam.Session.Valid.{IsValid, construct_iff}
use cks_simulator.Exam.Session.Steps.{
  Op, claim, confirm, activate_at, progress, submit_at, complete, give_up, apply, apply-Advances,
  Advances, SameExam, ◌⟶◌, claim_inv, confirm_inv, activate_inv, update_progress_inv,
  begin_submit_inv, complete_submit_inv, fail_inv,
}

-- What a caller that drops exceptions is left with.
abbrev settle : Result ExamSession → ExamSession → ExamSession
settle (ok t) s = t
settle (err e) s = s

pub run : List Op → ExamSession → ExamSession
run [] s = s
run (op ∷ ops) s = run ops (settle (apply op s) s)

SameExam-refl : (s : ExamSession) → SameExam s s
SameExam-refl s = ground arith

SameExam-trans : (s t u : ExamSession) → SameExam s t → SameExam t u → SameExam s u
SameExam-trans s t u a b = ground arith

step_result :
    (op : Op) (s : ExamSession)
    → IsValid s
    → IsValid (settle (apply op s) s)
      × SameExam s (settle (apply op s) s)
      × (s.revision ≤ (settle (apply op s) s).revision)
step_result op s v = go (apply op s) (λ t h. apply-Advances op s t v h)
  where
    go :
        (r : Result ExamSession)
        → ((t : ExamSession) → r ≡ ok t → (t ≡ s) ⊎ Advances s t)
        → IsValid (settle r s) × SameExam s (settle r s) × (s.revision ≤ (settle r s).revision)
    go (err e) f = (v, SameExam-refl s, omega arith)
    go (ok t) f = elim (f t refl) [
      | inl same ↦ rw same (v, SameExam-refl s, omega arith)
      | inr step ↦ (step.valid, step.same, omega arith)
    ]

-- After any sequence of operations a valid session is valid, is the same exam, and its revision has
-- not gone back.
pub run_keeps :
    (ops : List Op) (s : ExamSession)
    → IsValid s
    → IsValid (run ops s) × SameExam s (run ops s) × (s.revision ≤ (run ops s).revision)
unfolding run
run_keeps [] s v = (v, SameExam-refl s, omega arith)
run_keeps (op ∷ ops) s v =
    let (valid, same, rev) = step_result op s v in
    let t : ExamSession = settle (apply op s) s in
    let (valid', same', rev') = run_keeps ops t valid in
    (valid', SameExam-trans s t _ same same', omega arith)

no_edge : (a b : ExamStatus) → a ≡ submitted → a ⟶ b → b ≡ submitted
no_edge a b e (◌⟶◌.stay f) = sym f ∙ e
no_edge a b e (◌⟶◌.start f g) = cc
no_edge a b e (◌⟶◌.submit f g) = cc
no_edge a b e (◌⟶◌.finish f g) = cc
no_edge a b e (◌⟶◌.abort f g) = absurd (f e)

-- A submitted session is final: every operation raises or gives it back as it was.
submitted_final :
    (op : Op) (s t : ExamSession) → IsValid s → s.status ≡ submitted → apply op s ≡ ok t → t ≡ s
unfolding apply claim_preparation confirm_preparation activate update_progress begin_submit
    complete_submit
submitted_final (claim x) s t v e h = ground arith
submitted_final (confirm x) s t v e h = ground arith
submitted_final (activate_at now) s t v e h = ground arith
submitted_final (progress x selected vi fl co now) s t v e h = ground arith
submitted_final (submit_at reason now) s t v e h = ground arith
submitted_final (complete receipt now) s t v e h = ground arith
submitted_final (give_up detail) s t v e h =
    let (eq, valid) = (construct_iff _ t).0 (fail_inv s t detail h) in
    absurd (ground (arith, v.receipt_fits, valid.receipt_fits))

-- A valid submitted session comes out of every sequence of operations as it was.
pub run-submitted :
    (ops : List Op) (s : ExamSession) → IsValid s → s.status ≡ submitted → run ops s ≡ s
unfolding run
run-submitted [] s v e = refl
run-submitted (op ∷ ops) s v e =
    go (apply op s) (λ t h. submitted_final op s t v e h) (run-submitted ops s v e)
  where
    go :
        (r : Result ExamSession)
        → ((t : ExamSession) → r ≡ ok t → t ≡ s)
        → run ops s ≡ s
        → run ops (settle r s) ≡ s
    go (err x) f rest = rest
    go (ok t) f rest = rw (f t refl) rest

-- Once the exam has left the preparation, no operation moves its start or its deadline.
pub timer_fixed :
    (op : Op) (s t : ExamSession)
    → s.status ≢ preparing
    → apply op s ≡ ok t
    → (t.started_at ≡ s.started_at) × (t.deadline_at ≡ s.deadline_at)
unfolding apply
timer_fixed (claim x) s t n h = ground (arith, (construct_iff _ t).0 (claim_inv s t x h))
timer_fixed (confirm x) s t n h = ground (arith, (construct_iff _ t).0 (confirm_inv s t x h))
timer_fixed (activate_at now) s t n h = absurd (n (activate_inv s t now h).0)
timer_fixed (progress x selected vi fl co now) s t n h =
    let (e, live, known, changes) = update_progress_inv s t x selected vi fl co now h in
    let (changed, d, c) = changes in ground (arith, (construct_iff _ t).0 c)
timer_fixed (submit_at reason now) s t n h = elim (begin_submit_inv s t reason now h) [
  | inl same ↦ rw same (refl, refl)
  | inr (e, c) ↦ ground (arith, (construct_iff _ t).0 c)
]
timer_fixed (complete receipt now) s t n h =
    ground (arith, (construct_iff _ t).0 (complete_submit_inv s t receipt now h).1)
timer_fixed (give_up detail) s t n h = ground (arith, (construct_iff _ t).0 (fail_inv s t detail h))
