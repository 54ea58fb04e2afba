-- ===== src/Scenario/Lifecycle/Simulation.antt =====
-- The engine as a machine of calls, and its refinement of the specification.
use cks_simulator.Common.{
  ◌≡◌, ◌≢◌, refl, ◌⊎◌, inl, String, Bool, true, false, some, List, [], ◌∷◌, Result, arith,
}
use cks_simulator.Lab.State.{ActiveScenario, LabState}
use cks_simulator.Scenario.Monad.{World}
use cks_simulator.Scenario.Cases.{case_lift, case_test, case_locked}
use cks_simulator.Scenario.Probe.{Engine}
use cks_simulator.Scenario.Probe.Tame.{AllTame}
use cks_simulator.Scenario.Engine.{
  prepare, prepare_locked, grade, grade_locked, restore, restore_locked,
}
use cks_simulator.LiveGrading.{LiveGrade}
use cks_simulator.Scenario.Lifecycle.{
  Stage, running, broken, stage, Call, preparing, grading, restoring, Spec,
}
use cks_simulator.Scenario.Lifecycle.Holds.{Holds}
use cks_simulator.Scenario.Lifecycle.Refines.{returns, Outcome, grade_locked-Outcome}
use cks_simulator.Scenario.Lifecycle.Restores.{restore_locked-Outcome}
use cks_simulator.Scenario.Lifecycle.Prepares.{prepare_locked-Outcome}

-- Whether the call has returned, and the world then.
abbrev pub observed : {Live A : Type 0} → Result A × World Live → Bool × World Live
observed (r, w) = (returns r, w)

module _ {Live : Type 0} (engine : Engine Live) (lab : String) where
  abbrev pub run : Call → String → World Live → Bool × World Live
  run preparing scenario_id w = observed (prepare engine lab scenario_id w)
  run grading scenario_id w = observed (grade engine lab scenario_id w)
  run restoring scenario_id w = observed (restore engine lab scenario_id w)

  prepare-Outcome :
      (scenario_id : String) (s : LabState) (w : World Live)
      → AllTame engine
      → Holds engine.namespace lab s w
      → Outcome engine lab preparing s (prepare engine lab scenario_id w)
  unfolding prepare
  prepare-Outcome scenario_id s w tame h =
      let Q : Result LabState × World Live → Type 0 = Outcome engine lab preparing s in
      case_lift Q _ _ _ (λ e _. (s, h, inl refl))
        λ d known.
          case_test Q _ _ _ _ _ (λ e _. (s, h, inl refl))
            λ supported.
              case_locked Q lab (prepare_locked engine lab d) w (λ e. (s, h, inl refl))
                (prepare_locked-Outcome engine lab tame d s w h)

  grade-Outcome :
      (scenario_id : String) (s : LabState) (w : World Live)
      → AllTame engine
      → Holds engine.namespace lab s w
      → Outcome engine lab grading s (grade engine lab scenario_id w)
  unfolding grade
  grade-Outcome scenario_id s w tame h =
      let Q : Result LiveGrade × World Live → Type 0 = Outcome engine lab grading s in
      case_lift Q _ _ _ (λ e _. (s, h, inl refl))
        λ d known.
          case_locked Q lab (grade_locked engine lab d) w (λ e. (s, h, inl refl))
            (grade_locked-Outcome engine lab d s w tame h)

  restore-Outcome :
      (scenario_id : String) (s : LabState) (w : World Live)
      → AllTame engine
      → Holds engine.namespace lab s w
      → Outcome engine lab restoring s (restore engine lab scenario_id w)
  unfolding restore
  restore-Outcome scenario_id s w tame h =
      let Q : Result LabState × World Live → Type 0 = Outcome engine lab restoring s in
      case_lift Q _ _ _ (λ e _. (s, h, inl refl))
        λ d known.
          case_locked Q lab (restore_locked engine lab d) w (λ e. (s, h, inl refl))
            (restore_locked-Outcome engine lab tame d s w h)

  -- Where no handler writes the files of the labs, every call on a lab that holds a constructed
  -- state, whether it returns or raises, leaves one, and moves its stage as the specification of
  -- that call allows.
  pub engine_refines :
      (call : Call) (scenario_id : String) (s : LabState) (w : World Live)
      → AllTame engine
      → Holds engine.namespace lab s w
      → (t : LabState) × Holds engine.namespace lab t (run call scenario_id w).1
        × Spec call (run call scenario_id w).0 (stage s) (stage t)
  engine_refines preparing scenario_id s w tame h = prepare-Outcome scenario_id s w tame h
  engine_refines grading scenario_id s w tame h = grade-Outcome scenario_id s w tame h
  engine_refines restoring scenario_id s w tame h = restore-Outcome scenario_id s w tame h

  -- One call after the other, with the candidate's work on the machines in between.
  pub run_all : List (Call × String × (Live → Live)) → World Live → World Live
  run_all [] w = w
  run_all ((call, scenario_id, work) ∷ calls) w =
      let v = (run call scenario_id w).1 in run_all calls (record v { live = work v.live })

-- The lab keeps the attempt, running or broken.
abbrev pub Keeps : ActiveScenario → Stage → Type 0
Keeps a s = (s ≡ running a) ⊎ (s ≡ broken (some a))

-- No call of the list is a restore.
abbrev pub NotRestoring : {Live : Type 0} → List (Call × String × (Live → Live)) → Type 0
NotRestoring [] = Unit
NotRestoring ((preparing, _, _) ∷ calls) = NotRestoring calls
NotRestoring ((grading, _, _) ∷ calls) = NotRestoring calls
NotRestoring ((restoring, _, _) ∷ calls) = ⊥

Spec-Keeps :
    (call : Call) (b : Bool) (a : ActiveScenario) (s t : Stage)
    → call ≢ restoring
    → Spec call b s t
    → Keeps a s
    → Keeps a t
Spec-Keeps preparing true a s t other move keeps = absurd (ground arith)
Spec-Keeps preparing false a s t other move keeps = ground arith
Spec-Keeps grading true a s t other move keeps = ground arith
Spec-Keeps grading false a s t other move keeps = ground arith
Spec-Keeps restoring b a s t other move keeps = absurd (other refl)

module _ {Live : Type 0} (engine : Engine Live) (lab : String) (tame : AllTame engine) where
  -- The candidate's work leaves the files.
  Holds-live :
      (t : LabState) (v : World Live) (live : Live)
      → Holds engine.namespace lab t v
      → Holds engine.namespace lab t (record v { live = live })
  Holds-live t v live h = record {
    found = h.found;
    built = h.built;
    canonical = h.canonical;
    writable = h.writable;
  }

  step-Keeps :
      (call : Call) (scenario_id : String) (work : Live → Live) (a : ActiveScenario) (s : LabState)
      (w : World Live)
      → call ≢ restoring
      → Holds engine.namespace lab s w
      → Keeps a (stage s)
      → let v = (run engine lab call scenario_id w).1 in
        (t : LabState) × Holds engine.namespace lab t (record v { live = work v.live })
        × Keeps a (stage t)
  step-Keeps call scenario_id work a s w other h keeps =
      let (t, there, move) = engine_refines engine lab call scenario_id s w tame h in
      (
        t,
        Holds-live t _ _ there,
        Spec-Keeps call (run engine lab call scenario_id w).0 a (stage s) (stage t) other move
            keeps,
      )

  -- No sequence of preparations and grades loses the attempt of a lab, whatever is done to the
  -- machines in between: the lab's file still holds it, running or broken.
  pub run_all-Keeps :
      (calls : List (Call × String × (Live → Live))) (a : ActiveScenario) (s : LabState)
      (w : World Live)
      → NotRestoring calls
      → Holds engine.namespace lab s w
      → Keeps a (stage s)
      → (t : LabState) × Holds engine.namespace lab t (run_all engine lab calls w)
        × Keeps a (stage t)
  unfolding run_all
  run_all-Keeps [] a s w plain h keeps = (s, h, keeps)
  run_all-Keeps ((preparing, scenario_id, work) ∷ calls) a s w plain h keeps =
      let (t, there, kept) = step-Keeps preparing scenario_id work a s w (λ e. cc e) h keeps in
      run_all-Keeps calls a t _ plain there kept
  run_all-Keeps ((grading, scenario_id, work) ∷ calls) a s w plain h keeps =
      let (t, there, kept) = step-Keeps grading scenario_id work a s w (λ e. cc e) h keeps in
      run_all-Keeps calls a t _ plain there kept
  run_all-Keeps ((restoring, scenario_id, work) ∷ calls) a s w plain h keeps = absurd plain
