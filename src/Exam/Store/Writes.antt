-- ===== src/Exam/Store/Writes.antt =====
-- When a session is written, what a later read finds, and that no concurrent update is lost.
use cks_simulator.Common.{
  ℕ, ◌≤◌, ◌<◌, ◌≡◌, ◌≢◌, refl, ◌↔◌, String, true, eq_iff, is_identifier, is_canonical_uuid, Kind,
  Result, ok, err, Exception, Raises, ◌⊎◌, inl, inr, arith,
}
use cks_simulator.Exam.Session.{ExamSession}
use cks_simulator.Exam.Store.{
  Slot, missing, damaged, stored, Disk, max_exam_state_bytes, put, load, save, delete,
}

pub put_self : (lab : String) (slot : Slot) (disk : Disk) → put lab slot disk lab ≡ slot
unfolding put
put_self lab slot disk = ground (arith, eq_iff lab lab)

pub put_other :
    (lab other : String) (slot : Slot) (disk : Disk)
    → other ≢ lab
    → put lab slot disk other ≡ disk other
unfolding put
put_other lab other slot disk h = ground (arith, eq_iff other lab)

pub load_stored :
    (lab : String) (s : ExamSession) (disk : Disk)
    → is_identifier lab ≡ true
    → disk lab ≡ stored s
    → load lab disk ≡ ok s
unfolding load
load_stored lab s disk named found = ground arith

module _ (encoded_size : ExamSession → ℕ) where
  -- What a save asks of the file that it replaces.
  pub record CanSave (s : ExamSession) (expected : ℕ) (current : ExamSession) (disk : Disk)
      : Type 0 where
    pub named : is_identifier s.lab_name ≡ true
    pub present : disk s.lab_name ≡ stored current
    pub same_session : current.session_id ≡ s.session_id
    pub unchanged : current.revision ≡ expected
    pub newer : expected < s.revision
    pub fits : encoded_size s ≤ max_exam_state_bytes

  save_inv :
      (s : ExamSession) (expected : ℕ) (disk disk' : Disk)
      → save encoded_size s expected disk ≡ ok disk'
      → (current : ExamSession) × (disk s.lab_name ≡ stored current)
        × (is_identifier s.lab_name ≡ true)
        × (current.session_id ≡ s.session_id)
        × (current.revision ≡ expected)
        × (expected < s.revision)
        × (encoded_size s ≤ max_exam_state_bytes)
        × (disk' ≡ put s.lab_name (stored s) disk)
  unfolding save
  save_inv s expected disk disk' h = go (disk s.lab_name) refl
    where
      go :
          (slot : Slot)
          → disk s.lab_name ≡ slot
          → (current : ExamSession) × (disk s.lab_name ≡ stored current)
            × (is_identifier s.lab_name ≡ true)
            × (current.session_id ≡ s.session_id)
            × (current.revision ≡ expected)
            × (expected < s.revision)
            × (encoded_size s ≤ max_exam_state_bytes)
            × (disk' ≡ put s.lab_name (stored s) disk)
      go missing e = absurd (ground arith)
      go damaged e = absurd (ground arith)
      go (stored c) e = ground (arith, eq_iff c.session_id s.session_id)

  -- A save succeeds exactly over the same session at the expected revision, under a safe lab name,
  -- with a newer one that fits; the disk is then the old one with that lab's file replaced.
  pub save_iff :
      (s : ExamSession) (expected : ℕ) (disk disk' : Disk)
      → (save encoded_size s expected disk ≡ ok disk') ↔ (
          (current : ExamSession) × CanSave s expected current disk
          × (disk' ≡ put s.lab_name (stored s) disk))
  unfolding save
  save_iff s expected disk disk' = (
    (λ h.
        let (c, present, named, same, old, newer, fits, eq) = save_inv s expected disk disk' h in
        (
          c,
          record {
            named = named;
            present = present;
            same_session = same;
            unchanged = old;
            newer = newer;
            fits = fits;
          },
          eq,
        )),
    (λ h.
        let (c, can, eq) = h in
        let present : disk s.lab_name ≡ stored c = can.present in
        ground (arith, eq_iff c.session_id s.session_id)),
  )

  -- Once one writer has saved, a session of the same lab that another saves at the same expected
  -- revision is refused as a conflict, and a load still finds the first one's.
  pub save_conflict :
      (a b : ExamSession) (expected : ℕ) (disk disk' : Disk)
      → save encoded_size a expected disk ≡ ok disk'
      → b.lab_name ≡ a.lab_name
      → (load a.lab_name disk' ≡ ok a)
        × Raises Kind.exam_conflict_error (save encoded_size b expected disk')
  unfolding save load
  save_conflict a b expected disk disk' h lab =
      let (c, present, named, same, old, newer, fits, eq) = save_inv a expected disk disk' h in
      let found : disk' a.lab_name ≡ stored a = rw eq (put_self a.lab_name (stored a) disk) in
      let found' : disk' b.lab_name ≡ stored a = rw lab found in
      let named' : is_identifier b.lab_name ≡ true = rw lab named in (ground arith, ground arith)

-- A delete with a canonical session ID succeeds exactly when the lab's stored session has that ID;
-- the disk is then the old one without that lab's file.
pub delete_iff :
    (lab session_id : String) (disk disk' : Disk)
    → is_canonical_uuid session_id ≡ true
    → (delete lab session_id disk ≡ ok disk') ↔ (
        (current : ExamSession) × (load lab disk ≡ ok current)
        × (current.session_id ≡ session_id)
        × (disk' ≡ put lab missing disk))
unfolding delete
delete_iff lab session_id disk disk' named = (
  (λ h. elim (loaded (load lab disk)) [
    | inl (c, e) ↦ (
      c,
      e,
      ground (arith, eq_iff c.session_id session_id),
      ground (arith, eq_iff c.session_id session_id),
    )
    | inr (x, e) ↦ absurd (ground arith)
  ]),
  (λ h. let (c, e, same, eq) = h in ground (arith, eq_iff c.session_id session_id)),
)
  where
    loaded :
        (r : Result ExamSession)
        → ((c : ExamSession) × (r ≡ ok c)) ⊎ ((x : Exception) × (r ≡ err x))
    loaded (ok c) = inl (c, refl)
    loaded (err x) = inr (x, refl)
