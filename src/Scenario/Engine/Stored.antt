-- ===== src/Scenario/Engine/Stored.antt =====
-- An operation of the store that has returned: what it was applied to, and what a load finds then.
use cks_simulator.Common.{◌≡◌, refl, ◌⊎◌, inl, inr, String, Bool, eq_iff, Result, ok, err, arith}
use cks_simulator.Lab.State.{LabState}
use cks_simulator.Lab.State.Constructed.{construct_inv}
use cks_simulator.Lab.Store.{Change, keep, replace, Disk, stored, load, commit, mutate}
use cks_simulator.Lab.Store.Steps.{
  Op, declare, bind_spec, bind_profile, observe, attest, prepare, restore, advance_to, recover,
  change, check_arguments, final,
}
use cks_simulator.Lab.Store.Success.{
  declare_inv, bind_spec_inv, bind_profile_inv, observe_inv, attest_inv, prepare_inv, restore_inv,
  Builds, advance_inv, recover_inv,
}
use cks_simulator.Lab.Store.Files.{put_self, commit_keep, commit_replace, mutate_inv}
use cks_simulator.Scenario.Monad.{World, stored_as, store}

-- The operation gives the state back, or writes one of the same identity.
abbrev pub Stays : LabState → Change → Type 0
Stays s c = (c ≡ keep s) ⊎ ((t : LabState) × (c ≡ replace t) × (t.identity ≡ s.identity))

Builds-Stays : (s u : LabState) (c : Change) → u.identity ≡ s.identity → Builds u c → Stays s c
Builds-Stays s u c same built =
    let (t, done, eq) = built in
    let (os, o, whole) = construct_inv u t done in inr (t, eq, rw whole same)

-- No operation gives a lab another identity.
pub change-Stays :
    (op : Op) (id : String) (s : LabState) (c : Change) → change op id s ≡ ok c → Stays s c
unfolding change
change-Stays (declare inventory) id s c h =
    Builds-Stays s _ c refl (declare_inv id s c inventory h).1
change-Stays (bind_spec spec) id s c h = elim (bind_spec_inv id s c spec h) [
  | inl kept ↦ inl kept
  | inr (free, built) ↦ Builds-Stays s _ c refl built
]
change-Stays (bind_profile profile) id s c h = elim (bind_profile_inv id s c profile h) [
  | inl kept ↦ inl kept
  | inr (free, built) ↦ Builds-Stays s _ c refl built
]
change-Stays (observe observations) id s c h = elim (observe_inv id s c observations h) [
  | inl kept ↦ inl kept
  | inr (none_yet, (os, valid, built)) ↦ Builds-Stays s _ c refl built
]
change-Stays (attest health now) id s c h = elim (attest_inv id s c health now h) [
  | inl kept ↦ inl kept
  | inr (inl built) ↦ Builds-Stays s _ c refl built
  | inr (inr (ready, built)) ↦ Builds-Stays s _ c refl built
]
change-Stays (prepare plan now) id s c h =
    let (ready, (health, known, idle, (a, active, built))) = prepare_inv id s c plan now h in
    Builds-Stays s _ c refl built
change-Stays (restore request now) id s c h =
    Builds-Stays s _ c refl (restore_inv id s c request now h).1
change-Stays (advance_to target now) id s c h =
    Builds-Stays s _ c refl (advance_inv id s c target now h).2
change-Stays (recover target os now) id s c h =
    let (verified, broken, (ps, valid, built)) = recover_inv id s c target os now h in
    Builds-Stays s _ c refl built

pub load_renamed :
    (namespace lab : String) (s t : LabState) (disk disk' : Disk)
    → load namespace lab disk ≡ ok s
    → t.identity ≡ s.identity
    → disk' lab ≡ stored t
    → load namespace lab disk' ≡ ok t
unfolding load
load_renamed namespace lab s t disk disk' found same here = ground (
  arith,
  eq_iff s.identity.lab_name lab,
  eq_iff t.identity.lab_name lab,
  eq_iff s.identity.namespace namespace,
  eq_iff t.identity.namespace namespace,
)

-- The operation was applied to the state that the lab's file held, and the file now holds the
-- state that it returns.
pub record Applied {Live : Type 0} (namespace lab id : String) (op : Op) (t : LabState)
    (w w' : World Live) : Type 0 where
  pub before : LabState
  pub outcome : Change
  pub found : load namespace lab w.labs ≡ ok before
  pub applied : change op id before ≡ ok outcome
  pub returned : t ≡ final outcome
  pub loaded : load namespace lab w'.labs ≡ ok t

module _ (namespace lab id : String) (op : Op) (t : LabState) where
  pub commit-loaded :
      (prohibited : Bool) (s : LabState) (c : Change) (disk disk' : Disk)
      → load namespace lab disk ≡ ok s
      → Stays s c
      → commit namespace prohibited lab disk c ≡ ok (t, disk')
      → (t ≡ final c) × (load namespace lab disk' ≡ ok t)
  commit-loaded prohibited s c disk disk' found (inl kept) committed =
      let (same, unwritten) =
        commit_keep namespace prohibited lab disk disk' s t (rw (← kept) committed) in
      (rw kept same, rw (unwritten, same) found)
  commit-loaded prohibited s c disk disk' found (inr (u, eq, own)) committed =
      let (same, written) =
        commit_replace namespace prohibited lab disk disk' u t (rw (← eq) committed) in
      (
        rw eq same,
        load_renamed namespace lab s t disk disk' found (rw same own)
            (rw written (put_self lab (stored t) disk)),
      )

  module _ {Live : Type 0} where
    stored_as-Applied :
        (w w' : World Live) (r : Result (LabState × Disk))
        → mutate namespace w.writes_prohibited lab (check_arguments op) (change op id) w.labs ≡ r
        → stored_as namespace r w ≡ (ok t, w')
        → Applied namespace lab id op t w w'
    stored_as-Applied w w' (err e) eq k = absurd (cc k)
    stored_as-Applied w w' (ok (u, disk)) eq k =
        let same : u ≡ t = cc in
        let there : record w { labs = disk } ≡ w' = cc in
        let (s, found, (c, done, committed)) =
          mutate_inv namespace w.writes_prohibited lab (check_arguments op) (change op id) w.labs
            disk t (rw eq (rw same refl)) in
        let (returned, loaded) =
          commit-loaded w.writes_prohibited s c w.labs disk found (change-Stays op id s c done)
            committed in
        record {
          before = s;
          outcome = c;
          found = found;
          applied = done;
          returned = returned;
          loaded = rw (← there) loaded;
        }

    pub store-Applied :
        (w w' : World Live)
        → store namespace lab id op w ≡ (ok t, w')
        → Applied namespace lab id op t w w'
    unfolding store
    store-Applied w w' h = stored_as-Applied w w' _ refl h
