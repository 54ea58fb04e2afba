-- ===== src/Exam/View/Hides.antt =====
-- What the browser is shown of a session.
use cks_simulator.Common.{
  ◌+◌, ◌-◌, ◌/◌, ◌*◌, ◌≤◌, ◌<◌, ◌≡◌, ◌≢◌, ◌↔◌, none, some, ok, eq_iff, arith,
}
use cks_simulator.Exam.Base.{active, submitted, Instant}
use cks_simulator.Exam.Manifest.{ExamManifest}
use cks_simulator.Exam.Session.{ExamSession}
use cks_simulator.Exam.Session.Valid.{IsValid}
use cks_simulator.Exam.View.{CandidateView, view_of, to_candidate_dict}

module _ (m : ExamManifest) (now : Instant) (s : ExamSession) (view : CandidateView) where
  -- Of a valid session the browser is shown the stored receipt as the result, and a result at all
  -- exactly when the session is submitted.
  pub view_result :
      IsValid s
      → to_candidate_dict m now s ≡ ok view
      → (view.result ≡ s.receipt) × ((view.result ≢ none) ↔ (s.status ≡ submitted))
  unfolding to_candidate_dict
  view_result v h = (ground arith, ((λ n. ground arith), (λ e. ground arith)))

  -- Of a valid active session, observed after its start, the remaining seconds shown are at most
  -- the duration, and 0 exactly when less than a second is left to the deadline.
  pub view_remaining :
      (start : Instant)
      → IsValid s
      → s.status ≡ active
      → s.started_at ≡ some start
      → start ≤ now
      → to_candidate_dict m now s ≡ ok view
      → (view.remaining_seconds ≤ s.duration_seconds)
        × ((view.remaining_seconds ≡ 0) ↔ (start + s.duration_seconds * 1000000 < now + 1000000))
  unfolding to_candidate_dict
  view_remaining start v live started later h =
      let ends : s.deadline_at ≡ some (start + s.duration_seconds * 1000000) = ground arith in
      let left : view.remaining_seconds ≡ (start + s.duration_seconds * 1000000 - now) / 1000000 =
        ground arith in
      (omega (arith, left), ((λ z. omega (arith, left, z)), (λ l. omega (arith, left, l))))

-- A session is shown exactly under the manifest that it was created from.
pub to_candidate_dict_iff :
    (m : ExamManifest) (now : Instant) (s : ExamSession) (view : CandidateView)
    → (to_candidate_dict m now s ≡ ok view) ↔ (
        (m.catalog_sha256 ≡ s.catalog_sha256)
        × (m.manifest_sha256 ≡ s.manifest_sha256)
        × (view ≡ view_of m now s))
unfolding to_candidate_dict
to_candidate_dict_iff m now s view = (
  (λ h. ground (
    arith,
    eq_iff m.catalog_sha256 s.catalog_sha256,
    eq_iff m.manifest_sha256 s.manifest_sha256,
  )),
  (λ h. ground (
    arith,
    eq_iff m.catalog_sha256 s.catalog_sha256,
    eq_iff m.manifest_sha256 s.manifest_sha256,
  )),
)
