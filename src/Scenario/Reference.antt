-- ===== src/Scenario/Reference.antt =====
-- cks_simulator/scenarios.py, `ReferenceSolutionRegistry`: the operator's reference actions. A time
-- limit is a number of seconds, a whole number here.
use cks_simulator.Common.{
  ℕ, ◌≡◌, ◌≤◌, refl, true, arith, String, not, ◌&&◌, leb, ltb, Option, none, some, List, [], ◌∷◌,
  ◌++◌, is_none, str_eq, is_handler_id, if◌then◌else◌, Kind, Result, ok, err, raise, Checked,
}
use cks_simulator.Scenario.Definition.{expected_scenario_ids, FullScenarioDefinition}
use cks_simulator.Scenario.Monad.{
  World, follow, Exec, pure, fault, lift, attempt, refuse_if, ◌>>=◌, ◌>>◌,
}
use cks_simulator.Scenario.Registry.{ScenarioContext}

abbrev Action : Type 0 → Type 0
Action Live = ScenarioContext → ℕ → Exec Live (Unit {0})

pub record Reference (Live : Type 0) : Type 0 where
  pub action : ScenarioContext → ℕ → Exec Live (Unit {0})
  pub cleanup : ScenarioContext → ℕ → Exec Live (Unit {0})

abbrev pub References : Type 0 → Type 0
References Live = List (String × Reference Live)

module _ {Live : Type 0} where
  lookup_reference : String → References Live → Option (Reference Live)
  lookup_reference identity [] = none
  lookup_reference identity ((key, r) ∷ rest) =
      if str_eq key identity then some r else lookup_reference identity rest

  pub register_reference : String → Reference Live → References Live → Result (References Live)
  unfolding lookup_reference
  register_reference identity r references =
      if not (is_handler_id expected_scenario_ids identity)
      then raise Kind.scenario_contract_error "reference solution registration is invalid"
      else if not (is_none (lookup_reference identity references))
      then raise Kind.scenario_contract_error "reference solution is already registered"
      else ok (references ++ (identity, r) ∷ [])

  or_unavailable : Option (Reference Live) → Result (Reference Live)
  or_unavailable none = raise Kind.scenario_lifecycle_error "reference solution is unavailable"
  or_unavailable (some r) = ok r

  unfoldable pub resolve_reference :
      FullScenarioDefinition → References Live → Result (Reference Live)
  unfolding lookup_reference or_unavailable
  resolve_reference d references = or_unavailable (lookup_reference d.handler_identity references)

  or_uncleaned : Checked → Exec Live (Unit {0})
  or_uncleaned (ok _) = pure tt
  or_uncleaned (err e) = fault Kind.scenario_lifecycle_error "reference solution cleanup failed"

  -- The cleanup is always called.
  pub execute :
      FullScenarioDefinition → ScenarioContext → ℕ → References Live → Exec Live (Unit {0})
  unfolding or_uncleaned
  execute d ctx timeout_seconds references = do
    refuse_if (not (ltb 0 timeout_seconds && leb timeout_seconds 900)) Kind.scenario_contract_error
        "reference solution timeout must be in (0, 900] seconds"
    r ← lift (resolve_reference d references)
    primary ← attempt (r.action ctx timeout_seconds)
    cleaned ← attempt (r.cleanup ctx timeout_seconds)
    or_uncleaned cleaned
    lift primary

-- What an execution gives: the error of the action, unless the cleanup has failed.
abbrev pub outcome_of : Checked → Checked → Checked
outcome_of primary (err e) = raise Kind.scenario_lifecycle_error "reference solution cleanup failed"
outcome_of primary (ok _) = primary

module _ {Live : Type 0} (d : FullScenarioDefinition) (ctx : ScenarioContext) (seconds : ℕ)
    (references : References Live) (r : Reference Live) (w : World Live) where
  finished :
      (primary cleaned : Checked) (v : World Live)
      → follow (λ (_ : Unit {0}). lift primary) (or_uncleaned cleaned v)
        ≡ (outcome_of primary cleaned, v)
  unfolding follow or_uncleaned
  finished primary (ok u) v = refl
  finished primary (err e) v = refl

  -- An execution of an installed reference solution, within its time limit, runs the action and then,
  -- whatever the action did, the cleanup, and nothing else; it raises the error of the action, unless
  -- the cleanup has failed, which is then its error.
  pub execute_lem :
      (1 ≤ seconds)
      → (seconds ≤ 900)
      → resolve_reference d references ≡ ok r
      → let (primary, v) = r.action ctx seconds w in
        let (cleaned, v') = r.cleanup ctx seconds v in
        execute d ctx seconds references w ≡ (outcome_of primary cleaned, v')
  unfolding execute follow
  execute_lem low high known =
      let bounded : (ltb 0 seconds && leb seconds 900) ≡ true = ground arith in
      rw (bounded, known)
        (finished (r.action ctx seconds w).0 (r.cleanup ctx seconds (r.action ctx seconds w).1).0 _)
