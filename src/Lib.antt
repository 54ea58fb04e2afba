-- ===== src/Lib.antt =====
-- Verification of cks-simulator, a simulator of the CKS exam over local labs: the timed exam, its
-- grading, the scenarios, and the state of the labs.
--
-- Parts and files, with the code that each models:
--   Exam/Base, Exam/Manifest: constants, `ExamTask`, `ExamManifest` (cks_simulator/exam.py).
--   Exam/Session: `ExamSession`, its `__post_init__` (`construct`) and its operations, one function
--     for each method. `replace` runs `__post_init__`, so an operation ends in `construct`. Below it:
--     Valid (what a constructed session satisfies), Steps (the life cycle), Preparation, Progress,
--     Submission, Lifecycle (histories), Document (`to_dict` and `from_dict`).
--   Exam/Store: `ExamSessionStore`, a slot for each lab. Exam/Aggregate: `aggregate_exam_grades`.
--     Exam/View: `to_candidate_dict`.
--   LiveGrading: `evaluate_live_grade` (cks_simulator/live_grading.py).
--   Controller: `StoredExamController` (cks_simulator/exam_server.py), which reads and writes the
--     store, calls the graders and shows the view; Controller/Monad is its state, Submit and Outcome
--     the submission, Snapshot the other requests.
--   Http: `_ExamRequestHandler` (cks_simulator/exam_server.py), the routes over a record of the
--     controller's requests. Http/Guards is what a request can reach.
--   Lab/Phase, Lab/Machine, Lab/State, Lab/Store: `LabPhase`, provider handles and observations,
--     `LabState`, and `LabStateStore` (cks_simulator/state.py, cks_simulator/providers/base.py). An
--     operation is a function from the state to a `Change`, which `mutate` applies to a file.
--   Lab/Authority: `require_mutation_authority`, `destroy_owned`, `break_glass_destroy_owned`, over
--     the `Provider` interface as a record.
--   Scenario: the scenarios of the full labs (cks_simulator/scenarios.py). Definition is the
--     catalog and the choice of a recovery, Registry the handlers and their contexts
--     (Registry/Reviewed: what a registered handler can do), Reference the reference solutions,
--     Fingerprint the two fingerprints, Monad the world and the actions on it, Probe
--     `_collect_grade_read_only`, Engine the calls of `ScenarioEngine` over the lab store, Recovery
--     `recover_active_scenario` (cks_simulator/recovery.py). Engine/Success and Engine/Completes
--     say what a call that returns has done, Engine/Recovers when a restore returns; Lifecycle is
--     the engine's specification as moves between stages of a lab, with the refinement in
--     Lifecycle/Simulation. Returns, Leaves and Cases are the rules of those proofs.
--   ExamEngine: `ExamEngine` (cks_simulator/exam_engine.py), in the same world: Task (its parts, the
--     baseline and the grade of one task, `ProgressEvent` of cks_simulator/progress.py), Start,
--     Grading, Restore and Teardown. Start/Rounds, Grading/Guards and Teardown/Deletes say what a call
--     that returns has done.
--   Common: Boolean tests, lists, texts and their regular expressions, JSON values, exceptions as
--     values, and rounding.
-- The modules named Samples and Examples hold concrete states, runs, and the theorems at them.
--
-- How the code is read. An exception is a value with its class and the literal text of its message;
-- the values that an f-string puts into a message are left out. Numbers are exact: weights and scores
-- are natural numbers (scores in hundredths of a point), where the code has floats that it rounds to
-- two digits. An instant is a number of microseconds, where the code writes and parses its text.
-- The tests of `isinstance` hold by the types. All recursion is on lists, so no fuel is needed.
--
-- An action of the scenario engine goes from the world to an outcome and a world: what was changed
-- before an exception stays changed. A call under the lock of a lab is one turn. The handlers and the
-- attestation of health may change the whole world; where a theorem needs it, they are assumed not to
-- write the files of the labs (`AllTame`).
--
-- Parameters: SHA-256 of a receipt and of a fingerprint's payload, the size of an encoded session,
-- the graders, the submission hook, the clock, the identifiers that `uuid4` draws, a provider's
-- answers, the handlers of scenarios, the reference actions, the attestation of a lab's health, the
-- redaction of a message, the callback that shows progress, the texts of instants, and `str` of a
-- value that is no text. The theorems on a submission assume that the encoded session fits into a
-- file, that the hook returns, and the outcome of the graders that they speak of; the one on
-- documents, that the text of an instant is read back.
--
-- Not modelled: file permissions, symbolic links, file locks and the atomic replacement of files
-- (operating-system calls), the conversion of lab states to and from JSON, `build_exam_manifest`,
-- the normalisation of weights, IPv4, MAC and product identifiers, `load_full_catalog`, the
-- canonical JSON of a snapshot, the redaction of texts, the reviewed handlers and the providers'
-- subprocesses, and the command line.
pub mod Common
pub mod Controller
pub mod Exam
pub mod ExamEngine
pub mod Http
pub mod Lab
pub mod LiveGrading
pub mod Scenario
