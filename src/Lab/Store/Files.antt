-- ===== src/Lab/Store/Files.antt =====
-- The files of the labs: what a claim creates, and that a read-only probe writes nothing.
use cks_simulator.Common.{
  ◌≡◌, ◌≢◌, ◌⊎◌, String, Bool, true, false, [], eq_iff, is_identifier, Checked, bind_ok, Result, ok,
  arith,
}
use cks_simulator.Lab.Phase.{declared}
use cks_simulator.Lab.State.{construct_identity, LabState, phase, construct}
use cks_simulator.Lab.State.Constructed.{construct_inv, construct_identity-eq}
use cks_simulator.Lab.Store.{
  Slot, missing, stored, Disk, put, Change, keep, replace, check_lab, load, require_writes_allowed,
  require_provider, claimed_identity, claimed_state, commit, mutate, claim,
}
use cks_simulator.Lab.Store.Steps.{Op, change, check_arguments, final}

pub put_self : (lab : String) (slot : Slot) (disk : Disk) → put lab slot disk lab ≡ slot
unfolding put
put_self lab slot disk = ground (arith, eq_iff lab lab)

pub put_other :
    (lab other : String) (slot : Slot) (disk : Disk)
    → other ≢ lab
    → put lab slot disk other ≡ disk other
unfolding put
put_other lab other slot disk h = ground (arith, eq_iff other lab)

module _ (namespace : String) where
  pub commit_inv :
      (prohibited : Bool) (lab : String) (disk disk' : Disk) (c : Change) (t : LabState)
      → commit namespace prohibited lab disk c ≡ ok (t, disk')
      → (t ≡ final c)
        × ((disk' ≡ disk) ⊎ ((prohibited ≡ false) × (disk' ≡ put lab (stored t) disk)))
  unfolding commit
  commit_inv prohibited lab disk disk' (keep s) t h = ground arith
  commit_inv prohibited lab disk disk' (replace s) t h = ground arith

  pub commit_keep :
      (prohibited : Bool) (lab : String) (disk disk' : Disk) (s t : LabState)
      → commit namespace prohibited lab disk (keep s) ≡ ok (t, disk')
      → (t ≡ s) × (disk' ≡ disk)
  unfolding commit
  commit_keep prohibited lab disk disk' s t h = ground arith

  pub commit_replace :
      (prohibited : Bool) (lab : String) (disk disk' : Disk) (u t : LabState)
      → commit namespace prohibited lab disk (replace u) ≡ ok (t, disk')
      → (t ≡ u) × (disk' ≡ put lab (stored t) disk)
  unfolding commit
  commit_replace prohibited lab disk disk' u t h = ground arith

  pub mutate_inv :
      (prohibited : Bool) (lab : String) (arguments : Checked) (f : LabState → Result Change)
      (disk disk' : Disk) (t : LabState)
      → mutate namespace prohibited lab arguments f disk ≡ ok (t, disk')
      → (s : LabState) × (load namespace lab disk ≡ ok s)
        × ((c : Change) × (f s ≡ ok c) × (commit namespace prohibited lab disk c ≡ ok (t, disk')))
  unfolding mutate
  mutate_inv prohibited lab arguments f disk disk' t h =
      let (_, named, rest) = bind_ok (check_lab lab) h in
      let (_, fit, rest') = bind_ok arguments rest in
      let (s, found, rest'') = bind_ok (load namespace lab disk) rest' in
      let (c, done, committed) = bind_ok (f s) rest'' in (s, found, (c, done, committed))

  pub load_owned :
      (lab : String) (disk : Disk) (s : LabState)
      → load namespace lab disk ≡ ok s
      → (check_lab lab ≡ ok tt) × (is_identifier lab ≡ true) × (s.identity.lab_name ≡ lab)
  unfolding load check_lab
  load_owned lab disk s found = ground (arith, eq_iff s.identity.lab_name lab)

  -- A change that writes goes through where the file is read and writes are allowed.
  pub mutate_writes :
      (lab : String) (f : LabState → Result Change) (disk : Disk) (s t : LabState)
      → load namespace lab disk ≡ ok s
      → f s ≡ ok (replace t)
      → mutate namespace false lab (ok tt) f disk ≡ ok (t, put lab (stored t) disk)
  unfolding mutate load commit
  mutate_writes lab f disk s t found done = ground arith

  -- While writes are prohibited for a grading probe, an operation that succeeds has changed no
  -- file.
  pub probe_writes_nothing :
      (op : Op) (lab id : String) (disk disk' : Disk) (t : LabState)
      → mutate namespace true lab (check_arguments op) (change op id) disk ≡ ok (t, disk')
      → disk' ≡ disk
  probe_writes_nothing op lab id disk disk' t h =
      let (s, found, (c, done, committed)) =
        mutate_inv true lab (check_arguments op) (change op id) disk disk' t h in
      ground (arith, commit_inv true lab disk disk' c t committed)

  -- A claim that succeeds has found no file of the lab, with writes allowed, and creates a
  -- declared lab without machines, which the next load reads.
  pub claim_creates :
      (prohibited : Bool) (lab provider lab_id now : String) (disk disk' : Disk) (t : LabState)
      → claim namespace prohibited lab provider lab_id now disk ≡ ok (t, disk')
      → (disk lab ≡ missing)
        × (phase t ≡ declared)
        × (t.inventory ≡ [])
        × (prohibited ≡ false)
        × (load namespace lab disk' ≡ ok t)
  unfolding claim load
  claim_creates prohibited lab provider lab_id now disk disk' t h =
      let (_, writable, rest) = bind_ok (require_writes_allowed namespace prohibited) h in
      let (_, named, rest') = bind_ok (check_lab lab) rest in
      let (_, provided, rest'') = bind_ok (require_provider provider) rest' in
      let (i, identity, more) =
        bind_ok (construct_identity (claimed_identity namespace lab provider lab_id)) rest'' in
      let (s, done, last) = bind_ok (construct (claimed_state i now)) more in
      let (os, o, eq) = construct_inv (claimed_state i now) s done in
      let own : i ≡ claimed_identity namespace lab provider lab_id =
        construct_identity-eq (claimed_identity namespace lab provider lab_id) i identity in
      ground (arith, put_self lab (stored t) disk, eq_iff lab lab, eq_iff namespace namespace)
