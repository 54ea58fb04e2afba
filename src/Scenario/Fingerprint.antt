-- ===== src/Scenario/Fingerprint.antt =====
-- cks_simulator/scenarios.py, `preparation_claim_fingerprint` and `scenario_state_fingerprint`. The
-- SHA-256 of the canonical JSON of a payload is a parameter. `uuid.UUID` is given canonical texts.
use cks_simulator.Common.{
  ◌≡◌, ◌≢◌, refl, inl, inr, Bool-cases, String, Bool, true, false, not, ◌||◌, ◌&&◌, Option, none,
  some, List, [], ◌∷◌, str_eq, eq_iff, is_in, is_sha256, is_canonical_uuid, if◌then◌else◌, Json,
  Items, nil, cons, Fields, end, field, Kind, Result, ok, raise, raise_if, ◌>>=◌, ◌>>◌, arith,
}
use cks_simulator.Lab.State.{ActiveScenario, LabState}
use cks_simulator.Scenario.Definition.{FullScenarioDefinition}
use cks_simulator.Scenario.Registry.{ScenarioContext}

text_items : List String → Items
text_items [] = nil
text_items (t ∷ ts) = cons (Json.str t) (text_items ts)

abbrev text_json : Option String → Json
text_json none = Json.null
text_json (some s) = Json.str s

abbrev is_of : FullScenarioDefinition → ActiveScenario → Bool
is_of d active =
    str_eq active.scenario_id d.scenario_id && str_eq active.handler_identity d.handler_identity

-- The attempt of a claim: the active one, or the given one.
claim_attempt_id : FullScenarioDefinition → Option ActiveScenario → Option String → Result String
claim_attempt_id d (some active) none = do
  raise_if (not (is_of d active)) Kind.scenario_lifecycle_error
      "active attempt does not match scenario definition"
  ok active.attempt_id
claim_attempt_id d (some active) (some attempt_id) = do
  raise_if (not (is_of d active)) Kind.scenario_lifecycle_error
      "active attempt does not match scenario definition"
  raise_if (not (str_eq attempt_id active.attempt_id)) Kind.scenario_lifecycle_error
      "requested attempt does not match active attempt"
  ok active.attempt_id
claim_attempt_id d none none =
    raise Kind.scenario_lifecycle_error "preparation fingerprint requires an attempt ID"
claim_attempt_id d none (some attempt_id) = do
  raise_if (not (is_canonical_uuid attempt_id)) Kind.scenario_lifecycle_error
      "preparation attempt ID is invalid"
  ok attempt_id

claim_payload : ScenarioContext → FullScenarioDefinition → String → Fields
unfolding text_items
claim_payload ctx d attempt_id = field "attempt_contract" (Json.int 2) (
    field "attempt_id" (Json.str attempt_id) (
      field "baseline" (text_json ctx.state.health_fingerprint) (
        field "handler" (Json.str d.handler_identity) (
          field "lab_id" (Json.str ctx.state.identity.lab_id) (
            field "prerequisites" (Json.arr (text_items d.prerequisites)) (
              field "recovery_class" (Json.str d.recovery_class) (
                field "restore_contract" (Json.str d.restore_fingerprint) (
                  field "scenario_id" (Json.str d.scenario_id) (
                    field "target_role" (Json.str d.target_role)
                      (field "untouched_baseline" (Json.str d.untouched_baseline) end))))))))))

-- `attempt_id or (active.attempt_id if active is not None else None)`
state_attempt_id : Option ActiveScenario → Option String → Result String
state_attempt_id (some active) none = ok active.attempt_id
state_attempt_id none none =
    raise Kind.scenario_lifecycle_error "scenario state fingerprint requires an attempt ID"
state_attempt_id (some active) (some attempt_id) =
    ok (if str_eq attempt_id "" then active.attempt_id else attempt_id)
state_attempt_id none (some attempt_id) =
    if str_eq attempt_id ""
    then raise Kind.scenario_lifecycle_error "scenario state fingerprint requires an attempt ID"
    else ok attempt_id

is_foreign : FullScenarioDefinition → String → Option ActiveScenario → Bool
is_foreign d attempt_id none = false
is_foreign d attempt_id (some active) =
    not (str_eq active.attempt_id attempt_id) || not (is_of d active)

abbrev contract_of : FullScenarioDefinition → String → String
contract_of d stage =
    if str_eq stage "prepared" then d.untouched_baseline else d.restore_fingerprint

state_payload : ScenarioContext → FullScenarioDefinition → String → String → String → Fields
state_payload ctx d stage observed attempt_id =
    field "contract" (Json.str "cks-simulator/scenario-state/v1") (
      field "attempt_id" (Json.str attempt_id) (
        field "baseline" (text_json ctx.state.health_fingerprint) (
          field "handler" (Json.str d.handler_identity) (
            field "lab_id" (Json.str ctx.state.identity.lab_id) (
              field "observed_state_sha256" (Json.str observed) (
                field "scenario_id" (Json.str d.scenario_id) (
                  field "stage" (Json.str stage)
                    (field "state_contract" (Json.str (contract_of d stage)) end))))))))

blank_refused : is_canonical_uuid "" ≢ true
unfolding is_canonical_uuid
blank_refused h = cc h

not_blank : (id : String) → is_canonical_uuid id ≡ true → str_eq id "" ≡ false
unfolding is_canonical_uuid
not_blank id canonical = elim (Bool-cases (str_eq id "")) [
  | inl blank ↦ absurd (blank_refused (rw ((eq_iff id "").0 blank) at canonical))
  | inr other ↦ other
]

module _ (digest : Fields → String) where
  pub preparation_claim_fingerprint :
      ScenarioContext → FullScenarioDefinition → Option String → Result String
  unfolding claim_attempt_id claim_payload
  preparation_claim_fingerprint ctx d attempt_id = do
    raise_if (elim ctx.state.health_fingerprint [ none ↦ true | some health ↦ false ])
        Kind.scenario_lifecycle_error "lab has no trusted health baseline"
    resolved ← claim_attempt_id d ctx.state.active_scenario attempt_id
    ok (digest (claim_payload ctx d resolved))

  pub scenario_state_fingerprint :
      ScenarioContext → FullScenarioDefinition → String → String → Option String → Result String
  unfolding state_attempt_id is_foreign state_payload
  scenario_state_fingerprint ctx d stage observed_state_sha256 attempt_id = do
    raise_if (not (is_in stage ("prepared" ∷ "restored" ∷ []))) Kind.scenario_contract_error
        "scenario fingerprint stage is invalid"
    raise_if (not (is_sha256 observed_state_sha256)) Kind.scenario_contract_error
        "observed scenario state must be canonical SHA-256"
    resolved ← state_attempt_id ctx.state.active_scenario attempt_id
    raise_if (not (is_canonical_uuid resolved)) Kind.scenario_lifecycle_error
        "scenario state fingerprint attempt is invalid"
    raise_if (is_foreign d resolved ctx.state.active_scenario) Kind.scenario_lifecycle_error
        "scenario state fingerprint attempt mismatch"
    ok (digest (state_payload ctx d stage observed_state_sha256 resolved))

  -- A claim on a lab without a scenario, and the attempt that it has become: the same lab on the
  -- same baseline, with the attempt active.
  pub record Becomes (d : FullScenarioDefinition) (a : ActiveScenario) (s t : LabState)
      : Type 0 where
    pub idle : s.active_scenario ≡ none
    pub active : t.active_scenario ≡ some a
    pub scenario : a.scenario_id ≡ d.scenario_id
    pub handler : a.handler_identity ≡ d.handler_identity
    pub canonical : is_canonical_uuid a.attempt_id ≡ true
    pub same_health : t.health_fingerprint ≡ s.health_fingerprint
    pub same_lab : t.identity.lab_id ≡ s.identity.lab_id

  module _ (d : FullScenarioDefinition) (a : ActiveScenario) (lab : String) (s t : LabState)
      (claim : Becomes d a s t) where
    abbrev before : ScenarioContext
    before = record { lab_name = lab; state = s }

    abbrev after : ScenarioContext
    after = record { lab_name = lab; state = t }

    its_attempt : is_of d a ≡ true
    its_attempt = ground (
      arith,
      claim.scenario,
      claim.handler,
      eq_iff a.scenario_id d.scenario_id,
      eq_iff a.handler_identity d.handler_identity,
    )

    its_own : is_foreign d a.attempt_id (some a) ≡ false
    unfolding is_foreign
    its_own = ground (arith, its_attempt, eq_iff a.attempt_id a.attempt_id)

    -- The fingerprints that are claimed for an attempt, before a lab is prepared, are those that are
    -- computed for it while it is active.
    pub fingerprints_agree :
        (stage observed : String)
        → (preparation_claim_fingerprint after d none
            ≡ preparation_claim_fingerprint before d (some a.attempt_id))
          × (scenario_state_fingerprint after d stage observed none
              ≡ scenario_state_fingerprint before d stage observed (some a.attempt_id))
    unfolding preparation_claim_fingerprint scenario_state_fingerprint
    fingerprints_agree stage observed = (
      rw (claim.idle, claim.active, claim.same_health, claim.same_lab, its_attempt, claim.canonical)
          refl,
      rw
          (
            claim.idle,
            claim.active,
            claim.same_health,
            claim.same_lab,
            not_blank a.attempt_id claim.canonical,
            its_own,
          )
          refl,
    )
