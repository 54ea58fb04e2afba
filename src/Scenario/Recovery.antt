-- ===== src/Scenario/Recovery.antt =====
-- cks_simulator/recovery.py: the recovery that trusted signals justify.
use cks_simulator.Common.{
  ◌≡◌, refl, ◌⊎◌, inl, inr, String, Bool, true, false, ◌&&◌, if◌then◌else◌, is_none, ok, arith,
}
use cks_simulator.Lab.Phase.{LabPhase, degraded, is_validated}
use cks_simulator.Lab.State.{LabState, phase}
use cks_simulator.Scenario.Definition.{
  RecoveryMode, rebuild_required, RecoverySignals, select_recovery_mode, FullScenarioDefinition,
  require,
}
use cks_simulator.Scenario.Monad.{World, Exec, pure, ◌>>=◌}
use cks_simulator.Scenario.Returns.{after_call, pure_returns}
use cks_simulator.Scenario.Probe.{Engine}
use cks_simulator.Scenario.Engine.{restore}
use cks_simulator.Scenario.Engine.Completes.{Restored, restore-Restored}

pub record RecoveryResult : Type 0 where
  pub mode : RecoveryMode
  pub recovered : Bool
  pub phase : LabPhase
  pub detail : String

abbrev is_rebuild : RecoveryMode → Bool
is_rebuild rebuild_required = true
is_rebuild _ = false

recovery_of : RecoveryMode → LabState → RecoveryResult
recovery_of mode s =
    let recovered = is_validated (phase s) && is_none s.active_scenario in
    record {
      mode = mode;
      recovered = recovered;
      phase = phase s;
      detail =
          if recovered
          then "reviewed restore and health attestation passed"
          else "reviewed restore did not return the lab to validated";
    }

unfoldable pub recover_active_scenario :
    {Live : Type 0}
    → Engine Live
    → String
    → FullScenarioDefinition
    → RecoverySignals
    → Exec Live RecoveryResult
unfolding recovery_of
recover_active_scenario engine lab d signals =
    let mode = select_recovery_mode d signals in
    if is_rebuild mode
    then pure (record {
      mode = mode;
      recovered = false;
      phase = degraded;
      detail = "identity or operator transport is unavailable; exact rebuild required";
    })
    else (do s ← restore engine lab d.scenario_id; pure (recovery_of mode s))

-- The identity of the guests or the operator's transport is lost.
abbrev pub Lost : RecoverySignals → Type 0
Lost signals =
    (signals.guest_identity_intact ≡ false) ⊎ (signals.operator_transport_available ≡ false)

-- The guests' identity and the operator's transport are there.
abbrev pub Intact : RecoverySignals → Type 0
Intact signals =
    (signals.guest_identity_intact ≡ true) × (signals.operator_transport_available ≡ true)

mode-Lost :
    (d : FullScenarioDefinition) (signals : RecoverySignals)
    → Lost signals
    → select_recovery_mode d signals ≡ rebuild_required
unfolding select_recovery_mode
mode-Lost d signals (inl gone) = rw gone refl
mode-Lost d signals (inr gone) = ground arith

mode-Intact :
    (d : FullScenarioDefinition) (signals : RecoverySignals)
    → Intact signals
    → is_rebuild (select_recovery_mode d signals) ≡ false
unfolding select_recovery_mode
mode-Intact d signals (own, reachable) = rw (own, reachable) (ground arith)

module _ {Live : Type 0} (engine : Engine Live) (lab : String) (d : FullScenarioDefinition)
    (signals : RecoverySignals) (w : World Live) where
  -- A recovery without the guests' identity or the operator's transport decides for a rebuild, says
  -- that nothing is recovered, and touches nothing.
  pub rebuild_decided :
      Lost signals
      → (r : RecoveryResult) × (recover_active_scenario engine lab d signals w ≡ (ok r, w))
        × (r.mode ≡ rebuild_required)
        × (r.recovered ≡ false)
  unfolding recover_active_scenario
  rebuild_decided lost = rw (mode-Lost d signals lost) ((_, refl, refl, refl))

  -- A recovery with the guests' identity and the operator's transport that returns has restored the
  -- lab, and says so.
  pub recovery_restores :
      (r : RecoveryResult) (w' : World Live)
      → Intact signals
      → recover_active_scenario engine lab d signals w ≡ (ok r, w')
      → (r.recovered ≡ true)
        × ((e : FullScenarioDefinition) × (t : LabState) × (require d.scenario_id engine.catalog
              ≡ ok e)
            × Restored engine lab e t w w')
  unfolding recover_active_scenario
  recovery_restores r w' intact done =
      let restoring = rw (mode-Intact d signals intact) at done in
      after_call _ _ _ _ restoring λ s w1 back r0.
        let (same, here) = pure_returns _ _ _ _ r0 in
        let (e, known, it) = restore-Restored engine lab d.scenario_id s w w' (rw (← here) back) in
        (rw (← same) (ground (arith, it.validated_again, it.idle)), (e, s, known, it))
