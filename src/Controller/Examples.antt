-- ===== src/Controller/Examples.antt =====
-- The theorems on requests at one running session.
use cks_simulator.Common.{refl, String, some, [], Kind, Result, ok, err, arith}
use cks_simulator.Exam.Base.{exam, manual}
use cks_simulator.Exam.Session.{ExamSession}
use cks_simulator.Exam.Session.Valid.{IsValid}
use cks_simulator.Exam.Session.Submission.{with_submission}
use cks_simulator.Exam.Session.Samples.{running, closed, running-IsValid, closed-IsValid}
use cks_simulator.Exam.Store.{stored}
use cks_simulator.Exam.Aggregate.{Grades}
use cks_simulator.Exam.Aggregate.Samples.{
  sample_manifest, full_grade, full_grades, sample_sha256, sample_manifest-construct,
}
use cks_simulator.Controller.Monad.{World}
use cks_simulator.Controller.{Setup}
use cks_simulator.Controller.Submit.{Holds}
use cks_simulator.Controller.Outcome.{SameManifest}

-- A controller whose graders of the whole exam give this result.
abbrev setup : Result Grades → Setup
setup outcome = record {
  lab_name = "lab";
  manifest = sample_manifest;
  desktop_url = some "http://127.0.0.1:6080/vnc.html";
  grade_one = λ task_id w. ok full_grade;
  grade_all = some (λ w. outcome);
  on_submission_start = λ w. ok tt;
  encoded_size = λ s. 100;
  sha256 = sample_sha256;
}

abbrev failing : String → Result Grades
failing message = err (record { kind = Kind.other; message = message })

-- A world that holds the session, at one second and half past the start.
abbrev world : ExamSession → World
world s = record { disk = λ lab. stored s; clock = λ n. 1500000; ticks = 0; events = [] }

abbrev submitted_session : ExamSession
submitted_session = with_submission manual 1500000 running

closed-Holds : Holds (setup (ok full_grades)) (world closed) closed
closed-Holds = record {
  found = refl;
  own_lab = refl;
  valid = closed-IsValid;
  fits = λ t. omega arith;
}

closed-SameManifest : SameManifest (setup (ok full_grades)) closed
closed-SameManifest = record { catalog = refl; manifest = refl; built = sample_manifest-construct }

abbrev examined : ExamSession
examined = record running { mode = exam }

examined-IsValid : IsValid examined
examined-IsValid = let v : IsValid running = running-IsValid in ground (arith, v)
