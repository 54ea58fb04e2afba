-- ===== src/Scenario/Probe/Tame.antt =====
-- An engine whose handlers and health attestation leave the files of the labs alone, and so does
-- its collection of evidence.
use cks_simulator.Common.{◌≡◌, refl, String, Option, none, some, Result, ok, err}
use cks_simulator.Lab.State.{ActiveScenario, LabState}
use cks_simulator.Scenario.Definition.{FullScenarioDefinition}
use cks_simulator.Scenario.Monad.{Exec}
use cks_simulator.Scenario.Registry.{
  ScenarioContext, GradeContext, GradeInputs, GradeSnapshot, Handler, resolve,
}
use cks_simulator.Scenario.Leaves.{
  Leaves, Leaves-lift, Leaves-ask, Leaves-attempt, Leaves-write_prohibited, Leaves-bind,
}
use cks_simulator.Scenario.Probe.{
  Engine, grade_context, evaluate, run_grader, run_probe, probe, integrity, or_unattested, collect,
}

-- What is registered only changes the live machines.
pub record IsTame {Live : Type 0} (h : Handler Live) : Type 0 where
  pub prepares : (ctx : ScenarioContext) (d : FullScenarioDefinition) → Leaves (h.prepare ctx d)
  pub restores : (ctx : ScenarioContext) (d : FullScenarioDefinition) → Leaves (h.restore ctx d)
  pub grades :
      (g : GradeContext → FullScenarioDefinition → Exec Live GradeInputs) (ctx : GradeContext)
      (d : FullScenarioDefinition)
      → h.grader ≡ some g
      → Leaves (g ctx d)
  pub collects :
      (c : GradeContext → FullScenarioDefinition → LabState → Exec Live GradeSnapshot)
      (ctx : GradeContext) (d : FullScenarioDefinition) (s : LabState)
      → h.snapshot_collector ≡ some c
      → Leaves (c ctx d s)

pub record AllTame {Live : Type 0} (engine : Engine Live) : Type 0 where
  pub attests : (ctx : ScenarioContext) → Leaves (engine.attest_health ctx)
  pub handlers :
      (d : FullScenarioDefinition) (h : Handler Live) → resolve d engine.handlers ≡ ok h → IsTame h

module _ {Live : Type 0} (engine : Engine Live)
    (attests : (ctx : ScenarioContext) → Leaves (engine.attest_health ctx)) where
  grade_context-Leaves :
      (s : LabState) (o : Option ActiveScenario) → Leaves (grade_context engine s o)
  unfolding grade_context
  grade_context-Leaves s none = Leaves-lift _
  grade_context-Leaves s (some active) = Leaves-lift _

  run_grader-Leaves :
      (h : Handler Live)
      (o : Option (GradeContext → FullScenarioDefinition → Exec Live GradeInputs))
      (ctx : GradeContext) (d : FullScenarioDefinition)
      → IsTame h
      → h.grader ≡ o
      → Leaves (run_grader engine o ctx d)
  unfolding run_grader
  run_grader-Leaves h none ctx d tame eq = Leaves-lift _
  run_grader-Leaves h (some g) ctx d tame eq = tame.grades g ctx d eq

  evaluate-Leaves :
      (o : Option (GradeSnapshot → FullScenarioDefinition → Result GradeInputs))
      (snapshot : GradeSnapshot) (d : FullScenarioDefinition)
      → Leaves (evaluate engine o snapshot d)
  unfolding evaluate
  evaluate-Leaves none snapshot d = Leaves-lift _
  evaluate-Leaves (some e) snapshot d = Leaves-lift _

  run_probe-Leaves :
      (h : Handler Live)
      (o : Option (GradeContext → FullScenarioDefinition → LabState → Exec Live GradeSnapshot))
      (d : FullScenarioDefinition) (s : LabState) (ctx : GradeContext)
      → IsTame h
      → h.snapshot_collector ≡ o
      → Leaves (run_probe engine o h d s ctx)
  unfolding run_probe
  run_probe-Leaves h none d s ctx tame eq = run_grader-Leaves h h.grader ctx d tame refl
  run_probe-Leaves h (some c) d s ctx tame eq =
      Leaves-bind _ _ (tame.collects c ctx d s eq)
        λ snapshot. evaluate-Leaves h.snapshot_evaluator snapshot d

  integrity-Leaves : (lab : String) (ctx : ScenarioContext) → Leaves (integrity engine lab ctx)
  unfolding integrity
  integrity-Leaves lab ctx =
      Leaves-bind _ _ (attests ctx) λ health. Leaves-bind _ _ (Leaves-ask _) λ after. Leaves-lift _

  or_unattested-Leaves : (r : Result (String × LabState)) → Leaves (or_unattested engine r)
  unfolding or_unattested
  or_unattested-Leaves (ok found) = Leaves-lift _
  or_unattested-Leaves (err e) = Leaves-lift _

  pub collect-Leaves :
      (lab : String) (s : LabState) (h : Handler Live) (d : FullScenarioDefinition)
      → IsTame h
      → Leaves (collect engine lab s h d)
  unfolding collect probe
  collect-Leaves lab s h d tame = Leaves-bind _ _ (Leaves-ask _) λ before.
      Leaves-bind _ _ (Leaves-lift _) λ _. Leaves-bind _ _ (Leaves-lift _) λ ctx.
        Leaves-bind _ _ (attests ctx) λ health_before.
          Leaves-bind _ _
            (Leaves-attempt _ (
              Leaves-write_prohibited _ (
                Leaves-bind _ _ (grade_context-Leaves before before.active_scenario)
                  λ grading. run_probe-Leaves h h.snapshot_collector d before grading tame refl)))
            λ outcome. Leaves-bind _ _ (Leaves-attempt _ (integrity-Leaves lab ctx)) λ checked.
              Leaves-bind _ _ (or_unattested-Leaves checked) λ found.
                Leaves-bind _ _ (Leaves-lift _)
                  λ _. Leaves-bind _ _ (Leaves-lift _) λ _. Leaves-lift outcome
