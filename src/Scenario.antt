-- ===== src/Scenario.antt =====
-- cks_simulator/scenarios.py and recovery.py: the catalog of scenarios, the registries of reviewed
-- handlers, the engine that prepares, grades and restores one scenario of a lab, and the recovery.
pub mod Definition
pub mod Monad
pub mod Registry
pub mod Probe
pub mod Engine
pub mod Returns
pub mod Recovery
pub mod Reference
pub mod Fingerprint
pub mod Leaves
pub mod Cases
pub mod Lifecycle
pub mod Samples
mod Examples
