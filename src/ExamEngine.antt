-- ===== src/ExamEngine.antt =====
-- cks_simulator/exam_engine.py, `ExamEngine`: the exam of one lab, over its session store, the store
-- of the labs, and the handlers of the scenarios.
pub mod Task
pub mod Restore
pub mod Start
pub mod Grading
pub mod Teardown
mod Samples
mod Examples
