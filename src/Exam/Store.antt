-- ===== src/Exam/Store.antt =====
-- cks_simulator/exam.py, `ExamSessionStore`: one `session.json` for each lab. What stands in the
-- file is a session that `from_dict` reads, or nothing readable; the operating system's checks of
-- the directories (owner, mode, symbolic links) are part of `damaged`. `encoded_size` is the number
-- of bytes that `json.dumps` gives for a session.
pub mod Writes
mod Examples
use cks_simulator.Common.{
  ℕ, ◌*◌, String, Bool, true, false, not, ◌||◌, Option, none, some, leb, ◌==◌, if◌then◌else◌,
  str_eq, is_identifier, is_canonical_uuid, Kind, Result, ok, err, raise, raise_if, ◌>>=◌, ◌>>◌,
  Checked,
}
use cks_simulator.Exam.Session.{ExamSession}

pub data Slot : Type 0 where
  missing damaged : Slot
  stored : ExamSession → Slot

abbrev pub Disk : Type 0
Disk = String → Slot

abbrev pub max_exam_state_bytes : ℕ
max_exam_state_bytes = 2 * 1024 * 1024

-- The file of one lab is replaced.
unfoldable pub put : String → Slot → Disk → Disk
put lab slot disk other = if str_eq other lab then slot else disk other

check_lab : String → Checked
check_lab lab = raise_if (not (is_identifier lab)) Kind.value_error "exam lab name is no identifier"

read_slot : Slot → Result ExamSession
read_slot missing = raise Kind.exam_state_error "exam session is missing"
read_slot damaged = raise Kind.exam_state_error "exam state file is unsafe"
read_slot (stored s) = ok s

unfoldable pub load : String → Disk → Result ExamSession
unfolding check_lab read_slot
load lab disk = do check_lab lab; read_slot (disk lab)

is_present : Slot → Bool
is_present missing = false
is_present _ = true

unfoldable pub exists : String → Disk → Result Bool
unfolding check_lab is_present
exists lab disk = do check_lab lab; ok (is_present (disk lab))

module _ (encoded_size : ExamSession → ℕ) where
  -- `_write`
  write : ExamSession → Disk → Result Disk
  write s disk = do
    raise_if (not (leb (encoded_size s) max_exam_state_bytes)) Kind.exam_state_error
        "exam state exceeds its maximum size"
    ok (put s.lab_name (stored s) disk)

  -- A method gives the new disk, or raises and leaves the disk as it was.
  unfoldable pub create : ExamSession → Disk → Result Disk
  unfolding check_lab is_present write
  create s disk = do
    check_lab s.lab_name
    raise_if (is_present (disk s.lab_name)) Kind.exam_conflict_error "exam session already exists"
    write s disk

  unfoldable pub save : ExamSession → ℕ → Disk → Result Disk
  unfolding load write
  save s expected_revision disk = do
    current ← load s.lab_name disk
    raise_if (not (str_eq current.session_id s.session_id)) Kind.exam_conflict_error
        "exam session identity changed"
    raise_if (not (current.revision == expected_revision)) Kind.exam_conflict_error
        "exam session revision changed"
    raise_if (leb s.revision current.revision) Kind.exam_conflict_error
        "exam session revision did not advance"
    write s disk

unfoldable pub delete : String → String → Disk → Result Disk
unfolding load
delete lab expected_session_id disk = do
  raise_if (not (is_canonical_uuid expected_session_id)) Kind.value_error
      "exam session ID must be a canonical UUID"
  session ← load lab disk
  raise_if (not (str_eq session.session_id expected_session_id)) Kind.exam_conflict_error
      "exam session identity changed"
  ok (put lab missing disk)
