-- ===== src/Scenario/Lifecycle.antt =====
-- What the scenario engine promises of one lab: the stages of the lab, and how a call may move it.
pub mod Holds
pub mod Refines
pub mod Restores
pub mod Prepares
pub mod Simulation
use cks_simulator.Common.{◌≡◌, ◌⊎◌, Bool, true, false, Option, none, some}
use cks_simulator.Lab.Phase.{LabPhase, validated, scenario_prepared, degraded}
use cks_simulator.Lab.State.{ActiveScenario, LabState, phase}

-- Not ready for a scenario, ready for one, prepared for an attempt, or broken, with the attempt that
-- was running.
pub data Stage : Type 0 where
  unready ready : Stage
  running : ActiveScenario → Stage
  broken : Option ActiveScenario → Stage

abbrev pub stage_of : LabPhase → Option ActiveScenario → Stage
stage_of validated o = ready
stage_of scenario_prepared (some a) = running a
stage_of degraded o = broken o
stage_of _ o = unready

abbrev pub stage : LabState → Stage
stage s = stage_of (phase s) s.active_scenario

pub data Call : Type 0 where
  preparing grading restoring : Call

abbrev pub IsOpen : Stage → Type 0
IsOpen s = (s ≡ ready) ⊎ (s ≡ unready)

-- The moves of a call that returns (`true`), and of one that raises. No move forgets an attempt but
-- the restore that returns.
abbrev pub Spec : Call → Bool → Stage → Stage → Type 0
Spec preparing true s t = IsOpen s × ((a : ActiveScenario) × (t ≡ running a))
Spec preparing false s t =
    (t ≡ s)
    ⊎ ((s ≡ unready) × (t ≡ ready))
    ⊎ (IsOpen s × ((a : ActiveScenario) × (t ≡ broken (some a))))
Spec grading true s t = (t ≡ s) × ((a : ActiveScenario) × (s ≡ running a))
Spec grading false s t = (t ≡ s) ⊎ ((a : ActiveScenario) × (s ≡ running a) × (t ≡ broken (some a)))
Spec restoring true s t =
    (t ≡ ready) × ((a : ActiveScenario) × ((s ≡ running a) ⊎ (s ≡ broken (some a))))
Spec restoring false s t =
    (t ≡ s) ⊎ ((a : ActiveScenario) × (s ≡ running a) × (t ≡ broken (some a)))
