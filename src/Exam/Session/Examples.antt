-- ===== src/Exam/Session/Examples.antt =====
-- The theorems on sessions at concrete sessions, and runs of the operations.
use cks_simulator.Common.{
  ◌≡◌, refl, ◌↔◌, ◌≤◌, ◌⊎◌, true, false, some, none, List, [], ◌∷◌, is_in, ok,
}
use cks_simulator.Exam.Session.Document.{to_dict, from_dict}
use cks_simulator.Exam.Session.Document.Reads.{from_dict-to_dict}
use cks_simulator.Common.{String, zero, suc, text_length, ◌+++◌, ap}
use cks_simulator.Exam.Base.{Instant, expected_task_ids, active, submitting, manual, expired}
use cks_simulator.Exam.Session.{
  ExamSession, construct, claim_preparation, update_progress, begin_submit, is_expired,
}
use cks_simulator.Exam.Session.Valid.{IsValid, construct_iff}
use cks_simulator.Exam.Session.Steps.{
  Op, claim, submit_at, apply, apply-Advances, Advances, SameExam,
}
use cks_simulator.Exam.Session.Progress.{update_progress_iff, with_progress}
use cks_simulator.Exam.Session.Preparation.{
  CanClaim, with_claim, with_confirmation, claim_preparation_iff,
}
use cks_simulator.Exam.Session.Submission.{begin_submit_active}
use cks_simulator.Exam.Session.Lifecycle.{run, run_keeps}
use cks_simulator.Exam.Session.Samples.{
  fresh, claiming, running, closing, fresh-IsValid, fresh-CanClaim, running-IsValid,
  sample_tasks-IsProgress,
}

construct_iff_example : (construct running ≡ ok running) ↔ ((running ≡ running) × IsValid running)
construct_iff_example = construct_iff running running

claim_succeeds : apply (claim "01") fresh ≡ ok claiming
unfolding apply
claim_succeeds = (claim_preparation_iff "01" fresh claiming fresh-IsValid).1 (fresh-CanClaim, refl)

apply-Advances_example : (claiming ≡ fresh) ⊎ Advances fresh claiming
apply-Advances_example = apply-Advances (claim "01") fresh claiming fresh-IsValid claim_succeeds

abbrev sample_ops : List Op
sample_ops = claim "01" ∷ claim "02" ∷ submit_at manual 7 ∷ []

run_keeps_example :
    IsValid (run sample_ops fresh)
    × SameExam fresh (run sample_ops fresh)
    × (0 ≤ (run sample_ops fresh).revision)
run_keeps_example = run_keeps sample_ops fresh fresh-IsValid

submit_succeeds : apply (submit_at manual 1500000) running ≡ ok closing
unfolding apply
submit_succeeds = (begin_submit_active running running-IsValid manual 1500000 refl).0

claim_preparation_iff_example :
    (claim_preparation "01" fresh ≡ ok claiming)
    ↔ (CanClaim "01" fresh × (claiming ≡ with_claim "01" fresh))
claim_preparation_iff_example = claim_preparation_iff "01" fresh claiming fresh-IsValid

abbrev confirmed : ExamSession
confirmed = with_confirmation "01" claiming

abbrev flagged_seven : ExamSession
flagged_seven = with_progress "07" none (some true) none true running

update_progress_iff_example :
    (update_progress "07" true none (some true) none 2000000 running ≡ ok flagged_seven) ↔ (
      (running.status ≡ active)
      × (is_expired 2000000 running ≡ false)
      × (is_in "07" expected_task_ids ≡ true)
      × (flagged_seven ≡ with_progress "07" none (some true) none true running))
update_progress_iff_example =
    update_progress_iff "07" none (some true) none true 2000000 running flagged_seven
      running-IsValid sample_tasks-IsProgress

-- A manual submission after the deadline is recorded as expired.
late_submission :
    begin_submit manual 7201000000 running
    ≡ ok (record running { status = submitting; end_reason = some expired; revision = 36 })
late_submission = (begin_submit_active running running-IsValid manual 7201000000 refl).0

-- A text of as many letters as the instant has microseconds, and its length.
unary : Instant → String
unary zero = ""
unary (suc t) = "." +++ unary t

unary_length : (t : Instant) → text_length (unary t) ≡ t
unfolding unary ◌+++◌
unary_length zero = refl
unary_length (suc t) = ap suc (unary_length t)

from_dict-to_dict_example :
    from_dict unary
      (λ text. some (text_length text))
      (λ v. "")
      (to_dict unary (λ text. some (text_length text)) (λ v. "") running)
    ≡ ok running
from_dict-to_dict_example =
    from_dict-to_dict unary (λ text. some (text_length text)) (λ v. "")
      (λ t. ap some (unary_length t)) running running-IsValid sample_tasks-IsProgress
