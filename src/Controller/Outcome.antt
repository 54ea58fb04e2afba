-- ===== src/Controller/Outcome.antt =====
-- `submit`, from the request to what the store holds and the browser is told.
use cks_simulator.Common.{suc, ◌≡◌, refl, none, if◌then◌else◌, ok, arith}
use cks_simulator.Exam.Base.{ExamEndReason, submitted, is_active}
use cks_simulator.Exam.Manifest.{construct_manifest}
use cks_simulator.Exam.Session.{ExamSession}
use cks_simulator.Exam.View.{view_of, to_candidate_dict}
use cks_simulator.Exam.View.Hides.{to_candidate_dict_iff}
use cks_simulator.Controller.Monad.{World}
use cks_simulator.Controller.{Setup, CandidatePayload, candidate_payload, submit}
use cks_simulator.Controller.Submit.{Holds, load-Holds}

-- The exam of the session is the one that the controller was built for.
pub record SameManifest (c : Setup) (s : ExamSession) : Type 0 where
  pub catalog : c.manifest.catalog_sha256 ≡ s.catalog_sha256
  pub manifest : c.manifest.manifest_sha256 ≡ s.manifest_sha256
  pub built : construct_manifest c.manifest ≡ ok c.manifest

abbrev pub payload_of : Setup → ExamSession → World → CandidatePayload
payload_of c s w = record {
  view = view_of c.manifest (w.clock w.ticks) s;
  desktop_url = if is_active s.status then c.desktop_url else none;
}

pub candidate_payload_lem :
    (c : Setup) (s : ExamSession) (w : World)
    → SameManifest c s
    → candidate_payload c s w ≡ (ok (payload_of c s w), record w { ticks = suc w.ticks })
unfolding candidate_payload
candidate_payload_lem c s w m =
    let shown : to_candidate_dict c.manifest (w.clock w.ticks) s
        ≡ ok (view_of c.manifest (w.clock w.ticks) s) =
      (to_candidate_dict_iff c.manifest (w.clock w.ticks) s _).1 (m.catalog, m.manifest, refl) in
    ground arith

-- A valid submitted session of the controller's manifest is stored: a submission gives its
-- payload, changes no stored session and calls no grader.
pub submit_again :
    (c : Setup) (w : World) (s : ExamSession) (reason : ExamEndReason)
    → Holds c w s
    → SameManifest c s
    → s.status ≡ submitted
    → submit c reason w ≡ (ok (payload_of c s w), record w { ticks = suc w.ticks })
unfolding submit
submit_again c w s reason h m done =
    ground (arith, load-Holds c w s h, candidate_payload_lem c s w m)
