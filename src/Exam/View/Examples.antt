-- ===== src/Exam/View/Examples.antt =====
-- The theorems on the browser's view at a submitted and at a running session.
use cks_simulator.Common.{◌*◌, ◌+◌, ◌≡◌, ◌≢◌, ◌≤◌, ◌<◌, refl, ◌↔◌, none, arith}
use cks_simulator.Exam.Base.{submitted}
use cks_simulator.Exam.Session.Samples.{running, closed, running-IsValid, closed-IsValid}
use cks_simulator.Exam.Aggregate.Samples.{sample_manifest}
use cks_simulator.Exam.View.{CandidateView, view_of}
use cks_simulator.Exam.View.Hides.{view_result, view_remaining, to_candidate_dict_iff}

abbrev closed_view : CandidateView
closed_view = view_of sample_manifest 3000000 closed

abbrev running_view : CandidateView
running_view = view_of sample_manifest 1500000 running

view_result_example :
    (closed_view.result ≡ closed.receipt)
    × ((closed_view.result ≢ none) ↔ (closed.status ≡ submitted))
view_result_example =
    view_result sample_manifest 3000000 closed closed_view closed-IsValid
      ((to_candidate_dict_iff sample_manifest 3000000 closed closed_view).1 (refl, refl, refl))

view_remaining_example :
    (running_view.remaining_seconds ≤ 7200)
    × ((running_view.remaining_seconds ≡ 0) ↔ (1000000 + 7200 * 1000000 < 1500000 + 1000000))
view_remaining_example =
    view_remaining sample_manifest 1500000 running running_view 1000000 running-IsValid refl refl
      (omega arith)
      ((to_candidate_dict_iff sample_manifest 1500000 running running_view).1 (refl, refl, refl))
