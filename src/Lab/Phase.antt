-- ===== src/Lab/Phase.antt =====
-- cks_simulator/state.py, `LabPhase` and `_ALLOWED_TRANSITIONS`.

use cks_simulator.Common.{Bool, true, false}

pub data LabPhase : Type 0 where
  declared vms_created os_ready cluster_ready addons_ready candidate_ready : LabPhase
  validated scenario_prepared graded degraded cleanup_pending destroyed : LabPhase

-- `current in _ALLOWED_TRANSITIONS[previous]`
abbrev pub allowed : LabPhase → LabPhase → Bool
allowed declared vms_created = true
allowed declared degraded = true
allowed declared cleanup_pending = true
allowed declared destroyed = true
allowed vms_created os_ready = true
allowed vms_created degraded = true
allowed vms_created cleanup_pending = true
allowed os_ready cluster_ready = true
allowed os_ready degraded = true
allowed os_ready cleanup_pending = true
allowed cluster_ready addons_ready = true
allowed cluster_ready degraded = true
allowed cluster_ready cleanup_pending = true
allowed addons_ready candidate_ready = true
allowed addons_ready degraded = true
allowed addons_ready cleanup_pending = true
allowed candidate_ready validated = true
allowed candidate_ready degraded = true
allowed candidate_ready cleanup_pending = true
allowed validated scenario_prepared = true
allowed validated degraded = true
allowed validated cleanup_pending = true
allowed validated destroyed = true
allowed scenario_prepared validated = true
allowed scenario_prepared graded = true
allowed scenario_prepared degraded = true
allowed scenario_prepared cleanup_pending = true
allowed graded validated = true
allowed graded degraded = true
allowed graded cleanup_pending = true
allowed degraded vms_created = true
allowed degraded os_ready = true
allowed degraded cluster_ready = true
allowed degraded addons_ready = true
allowed degraded validated = true
allowed degraded cleanup_pending = true
allowed cleanup_pending destroyed = true
allowed _ _ = false

-- `phase in _U4_VERIFIED_PHASES`
abbrev pub is_verified_phase : LabPhase → Bool
is_verified_phase vms_created = true
is_verified_phase os_ready = true
is_verified_phase cluster_ready = true
is_verified_phase addons_ready = true
is_verified_phase _ = false

-- `phase in {VALIDATED, SCENARIO_PREPARED, GRADED}`
abbrev pub is_scenario_phase : LabPhase → Bool
is_scenario_phase validated = true
is_scenario_phase scenario_prepared = true
is_scenario_phase graded = true
is_scenario_phase _ = false

-- The tests `phase is LabPhase.…` that the code makes.
abbrev pub is_declared : LabPhase → Bool
is_declared declared = true
is_declared _ = false

abbrev pub is_candidate_ready : LabPhase → Bool
is_candidate_ready candidate_ready = true
is_candidate_ready _ = false

abbrev pub is_validated : LabPhase → Bool
is_validated validated = true
is_validated _ = false

abbrev pub is_prepared : LabPhase → Bool
is_prepared scenario_prepared = true
is_prepared _ = false

abbrev pub is_degraded : LabPhase → Bool
is_degraded degraded = true
is_degraded _ = false

-- `phase in {CLEANUP_PENDING, DESTROYED}`
abbrev pub is_closing : LabPhase → Bool
is_closing cleanup_pending = true
is_closing destroyed = true
is_closing _ = false

abbrev pub is_cleanup_pending : LabPhase → Bool
is_cleanup_pending cleanup_pending = true
is_cleanup_pending _ = false
