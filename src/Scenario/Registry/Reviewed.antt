-- ===== src/Scenario/Registry/Reviewed.antt =====
-- The registries that can be built: what a registered handler can do.
use cks_simulator.Common.{
  ◌≡◌, refl, ◌⊎◌, inl, inr, String, true, false, none, [], ◌∷◌, ◌++◌, All, str_eq, eq_iff,
  is_handler_id, ok, Bool-cases, arith,
}
use cks_simulator.Scenario.Definition.{expected_scenario_ids, FullScenarioDefinition}
use cks_simulator.Scenario.Registry.{
  Object, has_method, exposes_any, require_methods, Handler, Handlers, lookup_handler, check_new,
  register, register_snapshot, or_missing, resolve,
}

-- The object that grades can neither prepare nor restore; an evaluator of snapshots has no other live
-- capability and no state.
pub record IsReviewed {Live : Type 0} (identity : String) (h : Handler Live) : Type 0 where
  pub named : is_handler_id expected_scenario_ids identity ≡ true
  pub prepares : has_method h.mutator "prepare" ≡ true
  pub restores : has_method h.mutator "restore" ≡ true
  pub no_prepare : has_method h.probe "prepare" ≡ false
  pub no_restore : has_method h.probe "restore" ≡ false
  pub mode :
      ((h.snapshot_collector ≡ none) × (has_method h.probe "grade" ≡ true))
      ⊎ ((h.grader ≡ none)
          × (has_method h.probe "evaluate" ≡ true)
          × (has_method h.probe "run" ≡ false)
          × (h.probe.has_attributes ≡ false))

-- A registry after some registrations that have returned.
pub data Registered {Live : Type 0} : Handlers Live → Type 0 where
  nothing_registered : Registered []
  with_grader :
      (identity : String) (h : Handler Live) {before after : Handlers Live}
      → Registered before
      → register identity h before ≡ ok after
      → Registered after
  with_snapshot :
      (identity : String) (collector : Object) (h : Handler Live) {before after : Handlers Live}
      → Registered before
      → register_snapshot identity collector h before ≡ ok after
      → Registered after

module _ {Live : Type 0} where
  abbrev AllReviewed : Handlers Live → Type 0
  AllReviewed = All (λ entry. IsReviewed entry.0 entry.1)

  register_inv :
      (identity : String) (h : Handler Live) (before after : Handlers Live)
      → register identity h before ≡ ok after
      → (g : Handler Live) × IsReviewed identity g × (after ≡ before ++ (identity, g) ∷ [])
  unfolding register check_new require_methods exposes_any
  register_inv identity h before after done = (
    record h { snapshot_collector = none; snapshot_evaluator = none },
    record {
      named = ground arith;
      prepares = ground arith;
      restores = ground arith;
      no_prepare = ground arith;
      no_restore = ground arith;
      mode = inl (refl, ground arith);
    },
    ground arith,
  )

  register_snapshot_inv :
      (identity : String) (collector : Object) (h : Handler Live) (before after : Handlers Live)
      → register_snapshot identity collector h before ≡ ok after
      → (g : Handler Live) × IsReviewed identity g × (after ≡ before ++ (identity, g) ∷ [])
  unfolding register_snapshot check_new require_methods exposes_any
  register_snapshot_inv identity collector h before after done = (
    record h { grader = none },
    record {
      named = ground arith;
      prepares = ground arith;
      restores = ground arith;
      no_prepare = ground arith;
      no_restore = ground arith;
      mode = inr (refl, ground arith, ground arith, ground arith);
    },
    ground arith,
  )

  All-appended :
      (hs : Handlers Live) (identity : String) (g : Handler Live)
      → AllReviewed hs
      → IsReviewed identity g
      → AllReviewed (hs ++ (identity, g) ∷ [])
  All-appended [] identity g all one = (one, tt)
  All-appended (entry ∷ hs) identity g all one = (all.0, All-appended hs identity g all.1 one)

  Registered-AllReviewed : (hs : Handlers Live) → Registered hs → AllReviewed hs
  Registered-AllReviewed _ nothing_registered = tt
  Registered-AllReviewed after (with_grader identity h {before} past done) =
      let (g, one, eq) = register_inv identity h before after done in
      rw eq (All-appended before identity g (Registered-AllReviewed before past) one)
  Registered-AllReviewed after (with_snapshot identity collector h {before} past done) =
      let (g, one, eq) = register_snapshot_inv identity collector h before after done in
      rw eq (All-appended before identity g (Registered-AllReviewed before past) one)

  found-IsReviewed :
      (d : FullScenarioDefinition) (hs : Handlers Live) (h : Handler Live)
      → AllReviewed hs
      → resolve d hs ≡ ok h
      → IsReviewed d.handler_identity h
  unfolding resolve lookup_handler or_missing
  found-IsReviewed d [] h all found = absurd (cc found)
  found-IsReviewed d ((key, g) ∷ hs) h all found =
      elim (Bool-cases (str_eq key d.handler_identity)) [
        | inl same ↦
            let key_is : key ≡ d.handler_identity = (eq_iff key d.handler_identity).0 same in
            let this : g ≡ h = cc (rw same at found) in rw (← key_is, ← this) all.0
        | inr other ↦ found-IsReviewed d hs h all.1 (rw other at found)
      ]

  -- Whatever registrations were made, the handler that is resolved for a scenario is reviewed: its
  -- mutator prepares and restores, and the object that grades it can do neither.
  pub resolve-IsReviewed :
      (d : FullScenarioDefinition) (hs : Handlers Live) (h : Handler Live)
      → Registered hs
      → resolve d hs ≡ ok h
      → IsReviewed d.handler_identity h
  resolve-IsReviewed d hs h past found =
      found-IsReviewed d hs h (Registered-AllReviewed hs past) found
