-- ===== src/Exam.antt =====
-- cks_simulator/exam.py: exam sessions, their store, and the aggregate score.
pub mod Base
pub mod Manifest
pub mod Session
pub mod Store
pub mod Aggregate
pub mod View
