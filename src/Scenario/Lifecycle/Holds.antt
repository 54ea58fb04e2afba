-- ===== src/Scenario/Lifecycle/Holds.antt =====
-- The lab's file holds a constructed state, which the calls of the store keep so.
use cks_simulator.Common.{
  ◌≡◌, refl, ap, inl, inr, String, true, false, some, is_canonical_uuid, Exception, Result, ok, err,
  arith,
}
use mathlib.Core.Path.{subst}
use cks_simulator.Lab.Phase.{scenario_prepared, degraded}
use cks_simulator.Lab.State.{ActiveScenario, LabState, phase, construct}
use cks_simulator.Lab.Store.{Change, replace, Disk, stored, put, load, mutate}
use cks_simulator.Lab.Store.Steps.{Op, advance_to, change, check_arguments, final}
use cks_simulator.Lab.Store.Files.{put_self, mutate_inv, mutate_writes}
use cks_simulator.Lab.Store.Rebuilt.{IsScenarioOp, change-construct, degraded_lab, degrade_succeeds}
use cks_simulator.Scenario.Monad.{World, stored_as, store}
use cks_simulator.Scenario.Leaves.{SameLabs}
use cks_simulator.Scenario.Engine.Stored.{Stays, change-Stays, commit-loaded, load_renamed}

pub record Holds {Live : Type 0} (namespace lab : String) (s : LabState) (w : World Live)
    : Type 0 where
  pub found : load namespace lab w.labs ≡ ok s
  pub built : construct s ≡ ok s
  pub canonical : is_canonical_uuid s.identity.lab_id ≡ true
  pub writable : w.writes_prohibited ≡ false

pub Holds-SameLabs :
    {Live : Type 0} (namespace lab : String) (s : LabState) (w v : World Live)
    → Holds namespace lab s w
    → SameLabs w v
    → Holds namespace lab s v
Holds-SameLabs namespace lab s w v h same = record {
  found = rw same.labs h.found;
  built = h.built;
  canonical = h.canonical;
  writable = rw same.prohibited h.writable;
}

Stays-identity : (s : LabState) (c : Change) → Stays s c → (final c).identity ≡ s.identity
Stays-identity s c (inl kept) = rw kept refl
Stays-identity s c (inr (t, eq, own)) = rw eq own

module _ {Live : Type 0} (namespace lab : String) (op : Op) (s : LabState) (w : World Live)
    (scenario : IsScenarioOp op) (h : Holds namespace lab s w)
    (Q : Result LabState × World Live → Type 0) where
  mutated_case :
      (r : Result (LabState × Disk))
      → mutate namespace w.writes_prohibited lab
          (check_arguments op)
          (change op s.identity.lab_id)
          w.labs
        ≡ r
      → ((e : Exception) → Q (err e, w))
      → ((t : LabState) (c : Change) (v : World Live)
          → change op s.identity.lab_id s ≡ ok c
          → t ≡ final c
          → Holds namespace lab t v
          → Q (ok t, v))
      → Q (stored_as namespace r w)
  mutated_case (err e) eq failing rest = failing e
  mutated_case (ok (t, disk)) eq failing rest =
      let (s', found, (c, done, committed)) =
        mutate_inv namespace w.writes_prohibited lab (check_arguments op)
          (change op s.identity.lab_id) w.labs disk t eq in
      let same : s' ≡ s = ground (arith, h.found) in
      let applied : change op s.identity.lab_id s ≡ ok c =
        subst (λ (x : LabState). change op s.identity.lab_id x ≡ ok c) same done in
      let stays = change-Stays op s.identity.lab_id s c applied in
      let (returned, loaded) =
        commit-loaded namespace lab s.identity.lab_id op t w.writes_prohibited s c w.labs disk
          h.found stays committed in
      rest t c (record w { labs = disk }) applied returned
        (record {
          found = loaded;
          built = rw returned (change-construct op s.identity.lab_id s c scenario h.built applied);
          canonical = rw (returned, Stays-identity s c stays) h.canonical;
          writable = h.writable;
        })

  -- An operation of a scenario raises and writes nothing, or is applied to the state that is held.
  pub store_case :
      ((e : Exception) → Q (err e, w))
      → ((t : LabState) (c : Change) (v : World Live)
          → change op s.identity.lab_id s ≡ ok c
          → t ≡ final c
          → Holds namespace lab t v
          → Q (ok t, v))
      → Q (store namespace lab s.identity.lab_id op w)
  unfolding store
  store_case failing rest = mutated_case _ refl failing rest

-- A prepared lab that is degraded.
module _ {Live : Type 0} (namespace lab now : String) (s : LabState) (a : ActiveScenario)
    (w : World Live) (h : Holds namespace lab s w) (held : phase s ≡ scenario_prepared)
    (active : s.active_scenario ≡ some a) where
  -- It stays on record with its attempt.
  abbrev pub degraded_world : World Live
  degraded_world = record w { labs = put lab (stored (degraded_lab s now)) w.labs }

  advance_change :
      change (advance_to degraded now) s.identity.lab_id s ≡ ok (replace (degraded_lab s now))
  unfolding change
  advance_change = degrade_succeeds s a now h.built held active h.canonical

  mutate-degraded :
      mutate namespace w.writes_prohibited lab
        (check_arguments (advance_to degraded now))
        (change (advance_to degraded now) s.identity.lab_id)
        w.labs
      ≡ ok (degraded_lab s now, put lab (stored (degraded_lab s now)) w.labs)
  unfolding check_arguments
  mutate-degraded = rw h.writable (
      mutate_writes namespace lab (change (advance_to degraded now) s.identity.lab_id) w.labs s
        (degraded_lab s now) h.found advance_change)

  pub store-degraded :
      store namespace lab s.identity.lab_id (advance_to degraded now) w
      ≡ (ok (degraded_lab s now), degraded_world)
  unfolding store
  store-degraded = ap (λ r. stored_as namespace r w) mutate-degraded

  pub Holds-degraded : Holds namespace lab (degraded_lab s now) degraded_world
  Holds-degraded = record {
    found =
        load_renamed namespace lab s (degraded_lab s now) w.labs degraded_world.labs h.found refl
          (put_self lab _ _);
    built =
        change-construct (advance_to degraded now) s.identity.lab_id s
          (replace (degraded_lab s now)) tt h.built advance_change;
    canonical = h.canonical;
    writable = h.writable;
  }
