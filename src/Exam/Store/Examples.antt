-- ===== src/Exam/Store/Examples.antt =====
-- The theorems on the store at a disk that holds one running session.
use cks_simulator.Common.{ℕ, ◌≡◌, refl, arith, Kind, ok, Raises, is_identifier}
use cks_simulator.Exam.Session.{ExamSession}
use cks_simulator.Exam.Session.Samples.{running, closing}
use cks_simulator.Exam.Store.{Disk, stored, put, load, save}
use cks_simulator.Exam.Store.Writes.{CanSave, save_iff, save_conflict}

abbrev small : ExamSession → ℕ
small s = 100

abbrev disk : Disk
disk lab = stored running

abbrev saved : Disk
saved = put "lab" (stored closing) disk

running-CanSave : CanSave small closing 35 running disk
unfolding is_identifier
running-CanSave = record {
  named = refl;
  present = refl;
  same_session = refl;
  unchanged = refl;
  newer = omega arith;
  fits = omega arith;
}

save_succeeds : save small closing 35 disk ≡ ok saved
save_succeeds = (save_iff small closing 35 disk saved).1 (running, running-CanSave, refl)

save_conflict_example :
    (load "lab" saved ≡ ok closing) × Raises Kind.exam_conflict_error (save small closing 35 saved)
save_conflict_example = save_conflict small closing closing 35 disk saved save_succeeds refl
