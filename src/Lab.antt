-- ===== src/Lab.antt =====
-- cks_simulator/state.py and the identities of cks_simulator/providers/base.py: the state of an
-- owned lab, its store, and the authority over its machines.
pub mod Phase
pub mod Machine
pub mod State
pub mod Store
pub mod Authority
