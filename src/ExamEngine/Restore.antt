-- ===== src/ExamEngine/Restore.antt =====
-- cks_simulator/exam_engine.py, `_restore_claimed`: every claimed task is restored, the last one
-- first, whatever happened to the others.
use cks_simulator.Common.{
  String, Option, none, some, List, [], ◌∷◌, ◌++◌, not, str_eq, Kind, Exception, ok, err, Checked,
}
use cks_simulator.Exam.Session.{ExamSession}
use cks_simulator.Lab.State.{LabState}
use cks_simulator.Scenario.Definition.{require}
use cks_simulator.Scenario.Monad.{World, Exec, lift, ◌>>=◌, refuse_if}
use cks_simulator.Scenario.Registry.{scenario_context, resolve}
use cks_simulator.ExamEngine.Task.{ExamEngine, task_state}

-- `reversed(session.claimed_task_ids)`
unfoldable pub reversed : List String → List String
reversed [] = []
reversed (t ∷ ts) = reversed ts ++ t ∷ []

abbrev pub with_error : Checked → List Exception → List Exception
with_error (ok _) errors = errors
with_error (err e) errors = e ∷ errors

abbrev pub failure_of : List Exception → Option Exception
failure_of [] = none
failure_of (e ∷ es) = some (record {
  kind = Kind.scenario_lifecycle_error;
  message = "exam task restore operation(s) failed";
})

module _ {Live : Type 0} (engine : ExamEngine Live) where
  -- The `try` block of one task.
  unfoldable pub restore_task : LabState → ExamSession → String → Exec Live (Unit {0})
  restore_task s session task_id = do
    d ← lift (require task_id engine.catalog)
    h ← lift (resolve d engine.handlers)
    view ← task_state engine s session task_id
    ctx ← lift (scenario_context s.identity.lab_name view.0)
    observed ← h.restore ctx d
    refuse_if (not (str_eq observed view.1.restore_fingerprint)) Kind.scenario_lifecycle_error
        "exam task restore contract mismatch"

  -- The errors of the loop, which never raises.
  unfoldable pub restore_each :
      LabState → ExamSession → List String → World Live → List Exception × World Live
  restore_each s session [] w = ([], w)
  restore_each s session (t ∷ ts) w =
      let (r, v) = restore_task s session t w in
      let (errors, v') = restore_each s session ts v in (with_error r errors, v')

  -- `_restore_claimed`
  unfoldable pub restore_claimed : LabState → ExamSession → Exec Live (Option Exception)
  unfolding restore_each reversed
  restore_claimed s session w =
      let (errors, v) = restore_each s session (reversed session.claimed_task_ids) w in
      (ok (failure_of errors), v)
