-- ===== src/Scenario/Definition.antt =====
-- cks_simulator/scenarios.py: `FullScenarioDefinition`, `ScenarioCatalog` and the choice of a
-- recovery. The catalog holds definitions that `__post_init__` has let through.
use cks_simulator.Common.{
  String, Bool, not, ◌||◌, List, [], ◌∷◌, ◌++◌, map, Option, none, some, is_empty, str_eq, texts_eq,
  is_in, is_blank, is_contract_id, is_handler_of, zfill_two, if◌then◌else◌, Kind, Result, ok, raise,
  raise_if, ◌>>◌, Checked,
}
use cks_simulator.Exam.Base.{expected_task_ids}
use cks_simulator.Lab.Machine.{distinct}

-- `EXPECTED_SCENARIO_IDS`, the same 17 as the exam's tasks.
abbrev pub expected_scenario_ids : List String
expected_scenario_ids = expected_task_ids

abbrev pub full_support : List String
full_support = "planned" ∷ "supported" ∷ []

abbrev pub target_roles : List String
target_roles = "candidate" ∷ "control-plane" ∷ "worker1" ∷ "worker2" ∷ []

abbrev pub recovery_classes : List String
recovery_classes =
    "candidate-files" ∷ "kubernetes-api" ∷ "control-plane" ∷ "node-cis" ∷ "docker" ∷ "apparmor"
    ∷ "gvisor" ∷ "falco" ∷ []

pub data RecoveryMode : Type 0 where
  targeted operator_transport rebuild_required : RecoveryMode

pub record RecoverySignals : Type 0 where
  pub api_available : Bool
  pub operator_transport_available : Bool
  pub guest_identity_intact : Bool

pub record FullScenarioDefinition : Type 0 where
  pub scenario_id : String
  pub title : String
  pub support : String
  pub target_role : String
  pub prerequisites : List String
  pub recovery_class : String
  pub handler_identity : String
  pub untouched_baseline : String
  pub restore_fingerprint : String

unfoldable pub select_recovery_mode : FullScenarioDefinition → RecoverySignals → RecoveryMode
select_recovery_mode d signals =
    if not signals.guest_identity_intact || not signals.operator_transport_available
    then rebuild_required
    else if not signals.api_available || is_in d.recovery_class ("control-plane" ∷ "node-cis" ∷ [])
    then operator_transport
    else targeted

-- The loop over the prerequisites and the two names of contracts.
check_contract_ids : List String → Checked
check_contract_ids [] = ok tt
check_contract_ids (value ∷ values) = do
  raise_if (not (is_contract_id value)) Kind.scenario_contract_error
      "full scenario contract identifier is unsafe"
  check_contract_ids values

pub construct_definition : FullScenarioDefinition → Result FullScenarioDefinition
unfolding check_contract_ids
construct_definition d = do
  raise_if (not (is_in d.scenario_id expected_scenario_ids)) Kind.scenario_contract_error
      "full scenario ID must be canonical from 01 through 17"
  raise_if (is_blank d.title) Kind.scenario_contract_error "full scenario title is missing"
  raise_if (not (is_in d.support full_support)) Kind.scenario_contract_error
      "full scenario support must be planned or supported"
  raise_if (not (is_in d.target_role target_roles)) Kind.scenario_contract_error
      "full scenario target role is invalid"
  raise_if (not (is_in d.recovery_class recovery_classes)) Kind.scenario_contract_error
      "full scenario recovery class is invalid"
  raise_if (is_empty d.prerequisites || not (distinct d.prerequisites)) Kind.scenario_contract_error
      "full scenario prerequisites must be non-empty and unique"
  check_contract_ids (d.prerequisites ++ d.untouched_baseline ∷ d.restore_fingerprint ∷ [])
  raise_if (not (is_handler_of d.scenario_id d.handler_identity)) Kind.scenario_contract_error
      "full scenario handler identity is invalid"
  ok d

abbrev pub Catalog : Type 0
Catalog = List FullScenarioDefinition

-- `ScenarioCatalog.__init__`
pub construct_catalog : List FullScenarioDefinition → Result Catalog
construct_catalog values = do
  raise_if (not (texts_eq (map (λ d. d.scenario_id) values) expected_scenario_ids))
      Kind.scenario_contract_error
      "full scenario catalog must contain ordered IDs 01 through 17 exactly once"
  raise_if (not (distinct (map (λ d. d.handler_identity) values))) Kind.scenario_contract_error
      "full scenario handler identities must be unique"
  ok values

-- `self._by_id[normalized]`
lookup_definition : String → Catalog → Option FullScenarioDefinition
lookup_definition scenario_id [] = none
lookup_definition scenario_id (d ∷ ds) =
    if str_eq d.scenario_id scenario_id then some d else lookup_definition scenario_id ds

or_unknown : Option FullScenarioDefinition → Result FullScenarioDefinition
or_unknown none = raise Kind.scenario_contract_error "unknown full scenario"
or_unknown (some d) = ok d

-- `ScenarioCatalog.require`
unfoldable pub require : String → Catalog → Result FullScenarioDefinition
unfolding lookup_definition or_unknown
require scenario_id catalog = or_unknown (lookup_definition (zfill_two scenario_id) catalog)
