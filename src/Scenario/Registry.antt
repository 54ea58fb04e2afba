-- ===== src/Scenario/Registry.antt =====
-- cks_simulator/scenarios.py: the contexts given to a handler, and the registry of handlers. An
-- object that is registered is seen by its callable attributes. The UUIDs here are those of
-- constructed states or drawn ones: `uuid.UUID` parses them exactly if they are canonical.
pub mod Reviewed
use cks_simulator.Common.{
  ℕ, String, Bool, false, not, ◌||◌, ◌==◌, Option, none, some, List, [], ◌∷◌, ◌++◌, is_none, str_eq,
  is_in, is_identifier, is_canonical_uuid, is_handler_id, if◌then◌else◌, Kind, Result, ok, raise,
  raise_if, ◌>>◌, Checked,
}
use cks_simulator.LiveGrading.{ExpectedCriterion, CriterionEvidence, LabSignals}
use cks_simulator.Lab.State.{LabState}
use cks_simulator.Scenario.Definition.{expected_scenario_ids, target_roles, FullScenarioDefinition}
use cks_simulator.Scenario.Monad.{Exec}

pub record ScenarioContext : Type 0 where
  pub lab_name : String
  pub state : LabState

unfoldable pub scenario_context : String → LabState → Result ScenarioContext
scenario_context lab_name state = do
  raise_if (not (is_identifier lab_name)) Kind.value_error "full lab name is no identifier"
  raise_if (not (str_eq state.identity.lab_name lab_name)) Kind.scenario_lifecycle_error
      "scenario context does not match lab identity"
  ok (record { lab_name = lab_name; state = state })

pub record GradeContext : Type 0 where
  pub lab_name : String
  pub lab_id : String
  pub scenario_id : String
  pub attempt_id : String
  pub target_role : String

unfoldable pub construct_grade_context : GradeContext → Result GradeContext
construct_grade_context c = do
  raise_if (not (is_identifier c.lab_name)) Kind.value_error "full lab name is no identifier"
  raise_if (not (is_canonical_uuid c.lab_id) || not (is_canonical_uuid c.attempt_id))
      Kind.scenario_lifecycle_error "grade context identity is invalid"
  raise_if (not (is_in c.scenario_id expected_scenario_ids)) Kind.scenario_lifecycle_error
      "grade context scenario ID is invalid"
  raise_if (not (is_in c.target_role target_roles)) Kind.scenario_lifecycle_error
      "grade context target role is invalid"
  ok c

pub record GradeInputs : Type 0 where
  pub expected : List ExpectedCriterion
  pub evidence : List CriterionEvidence
  pub signals : LabSignals

pub record GradeSnapshot : Type 0 where
  pub scenario_id : String
  pub canonical_json : String

-- An object: which one it is, its callable attributes, and whether its `__dict__` is not empty.
pub record Object : Type 0 where
  pub identity : ℕ
  pub methods : List String
  pub has_attributes : Bool

-- `callable(getattr(value, method, None))`
abbrev pub has_method : Object → String → Bool
has_method o method = is_in method o.methods

pub exposes_any : Object → List String → Bool
exposes_any o [] = false
exposes_any o (method ∷ methods) = has_method o method || exposes_any o methods

-- The loop over the methods of a mutator.
require_methods : Object → List String → Checked
require_methods o [] = ok tt
require_methods o (method ∷ methods) = do
  raise_if (not (has_method o method)) Kind.scenario_contract_error "handler is missing a method"
  require_methods o methods

-- `RegisteredScenarioHandler`. A mutator, a collector and a grader may do anything to the world; an evaluator
-- and the expected fingerprints are functions of their arguments. The probe is the object that
-- grades: the grader, or the evaluator of a snapshot.
pub record Handler (Live : Type 0) : Type 0 where
  pub mutator : Object
  pub probe : Object
  pub prepare : ScenarioContext → FullScenarioDefinition → Exec Live String
  pub restore : ScenarioContext → FullScenarioDefinition → Exec Live String
  pub grader : Option (GradeContext → FullScenarioDefinition → Exec Live GradeInputs)
  pub snapshot_collector :
      Option (GradeContext → FullScenarioDefinition → LabState → Exec Live GradeSnapshot)
  pub snapshot_evaluator : Option (GradeSnapshot → FullScenarioDefinition → Result GradeInputs)
  pub expected_prepared : ScenarioContext → FullScenarioDefinition → String → Result String
  pub expected_restored : ScenarioContext → FullScenarioDefinition → String → Result String

abbrev pub Handlers : Type 0 → Type 0
Handlers Live = List (String × Handler Live)

module _ {Live : Type 0} where
  pub lookup_handler : String → Handlers Live → Option (Handler Live)
  lookup_handler identity [] = none
  lookup_handler identity ((key, h) ∷ rest) =
      if str_eq key identity then some h else lookup_handler identity rest

  check_new : String → Handlers Live → Checked
  unfolding lookup_handler
  check_new identity handlers = do
    raise_if (not (is_handler_id expected_scenario_ids identity)) Kind.scenario_contract_error
        "registered handler identity is invalid"
    raise_if (not (is_none (lookup_handler identity handlers))) Kind.scenario_contract_error
        "handler is already registered"

  -- `HandlerRegistry.register`: the handler has a grader and no snapshot. The callables of the
  -- expected fingerprints are so by their type.
  unfoldable pub register : String → Handler Live → Handlers Live → Result (Handlers Live)
  unfolding check_new require_methods exposes_any
  register identity h handlers = do
    check_new identity handlers
    require_methods h.mutator ("prepare" ∷ "restore" ∷ [])
    raise_if (not (has_method h.probe "grade")) Kind.scenario_contract_error
        "handler is missing grade()"
    raise_if
        ((h.mutator.identity == h.probe.identity)
          || exposes_any h.probe ("prepare" ∷ "restore" ∷ []))
        Kind.scenario_contract_error "handler grader must be structurally read-only"
    ok (
        handlers
        ++ (identity, record h { snapshot_collector = none; snapshot_evaluator = none }) ∷ [])

  -- `HandlerRegistry.register_snapshot`: the collector is an object of its own.
  pub register_snapshot : String → Object → Handler Live → Handlers Live → Result (Handlers Live)
  unfolding check_new require_methods exposes_any
  register_snapshot identity collector h handlers = do
    check_new identity handlers
    require_methods h.mutator ("prepare" ∷ "restore" ∷ [])
    raise_if (not (has_method collector "collect")) Kind.scenario_contract_error
        "handler is missing collect()"
    raise_if (not (has_method h.probe "evaluate")) Kind.scenario_contract_error
        "handler is missing evaluate()"
    raise_if (exposes_any h.probe ("prepare" ∷ "restore" ∷ "collect" ∷ "execute" ∷ "run" ∷ []))
        Kind.scenario_contract_error "handler snapshot evaluator exposes a live capability"
    raise_if h.probe.has_attributes Kind.scenario_contract_error
        "handler snapshot evaluator must be stateless"
    ok (handlers ++ (identity, record h { grader = none }) ∷ [])

  or_missing : Option (Handler Live) → Result (Handler Live)
  or_missing none = raise Kind.scenario_lifecycle_error "reviewed handler is not installed"
  or_missing (some h) = ok h

  -- `HandlerRegistry.resolve`
  unfoldable pub resolve : FullScenarioDefinition → Handlers Live → Result (Handler Live)
  unfolding lookup_handler or_missing
  resolve d handlers = or_missing (lookup_handler d.handler_identity handlers)
