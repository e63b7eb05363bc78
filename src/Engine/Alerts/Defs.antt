-- ===== src/Engine/Alerts/Defs.antt =====
-- 2identify_operador/app/engine/alert.py, class `AlertEngine`. A method takes the engine and
-- returns it beside the result; after a raise the engine keeps what was written before it.
use identify.Base.{
  ℕ, ◌+◌, Bool, true, false, not, ◌&&◌, Option, none, some, List, [], ◌∷◌, ◌++◌, ltb, leb,
  if◌then◌else◌, any, aware, Text, Str,
}
use identify.Base.Dict.{Dict, lookup, contains, insert}
use identify.Base.Result.{Result, ok, err, value_error, runtime_error, or_raise}
use identify.Domain.Alert.{
  Uuid, SafetyViolation, SafetyAlert, SafetyAlertSeverity, warning, critical, violation_init,
  alert_init, alert_fields, deduplication_key, resolve,
}
use identify.Domain.Alert
use identify.Domain.WorkSession.{WorkSession}

-- The constructor's arguments, times in microseconds. `alert_id_factory n` is what the factory
-- returns at its n-th call, and `str_uuid` is `str` of a `UUID`.
pub record Settings : Type 0 where
  pub minimum_consecutive_observations : ℕ
  pub minimum_persistence : ℕ
  pub resolution_consecutive_observations : ℕ
  pub cooldown : ℕ
  pub critical_after : ℕ
  pub alert_id_factory : ℕ → Uuid
  pub str_uuid : Uuid → Text

pub record ConditionState : Type 0 where
  pub violation : SafetyViolation
  pub first_observed_at : Option ℕ
  pub consecutive_observations : ℕ
  pub consecutive_clear_observations : ℕ
  pub active_alert : Option (SafetyAlert ℕ)
  pub next_raise_allowed_at : Option ℕ

-- `issued` counts the calls of the identifier factory.
pub record AlertEngine : Type 0 where
  pub states : Dict ConditionState
  pub work_session_id : Option Uuid
  pub last_observed_at : Option ℕ
  pub issued : ℕ

pub record AlertEngineUpdate : Type 0 where
  pub raised_alerts : List (SafetyAlert ℕ)
  pub resolved_alerts : List (SafetyAlert ℕ)
  pub active_alerts : List (SafetyAlert ℕ)
  pub escalated_alerts : List (SafetyAlert ℕ)

abbrev pub has_active : SafetyAlert ℕ → Bool
has_active a = Alert.is_active a.status

-- `AlertEngineUpdate.__post_init__`
unfoldable pub update_init : AlertEngineUpdate → Result AlertEngineUpdate
update_init u =
    if any (λ a. not (has_active a)) (u.raised_alerts ++ (u.active_alerts ++ u.escalated_alerts))
    then err value_error
    else if any has_active u.resolved_alerts
    then err value_error
    else ok u

-- `AlertEngine.__init__`: the checks, and the fresh state
unfoldable pub engine_init : Settings → Result AlertEngine
engine_init cfg =
    if ltb cfg.minimum_consecutive_observations 1
    then err value_error
    else if ltb cfg.resolution_consecutive_observations 1
    then err value_error
    else if leb cfg.critical_after 0
    then err value_error
    else ok (record { states = []; work_session_id = none; last_observed_at = none; issued = 0 })

-- A call on the engine that may raise.
abbrev pub Method : Type 0 → Type 0
Method A = AlertEngine → Result A × AlertEngine

infixl 5 ◌>>=◌ ◌>>◌
abbrev pub ◌>>=◌ : {A B : Type 0} → Method A → (A → Method B) → Method B
◌>>=◌ m f e = let (r, e') = m e in elim r [ ok a ↦ f a e' | err x ↦ (err x, e') ]

abbrev pub ◌>>◌ : {A B : Type 0} → Method A → Method B → Method B
m >> k = m >>= λ _. k

abbrev pub pure : {A : Type 0} → A → Method A
pure a e = (ok a, e)

abbrev pub lift : {A : Type 0} → Result A → Method A
lift r e = (r, e)

abbrev pub gets : {A : Type 0} → (AlertEngine → A) → Method A
gets f e = (ok (f e), e)

abbrev pub modify : (AlertEngine → AlertEngine) → Method (Unit {0})
modify f e = (ok tt, f e)

-- a write to the state object that the key names
abbrev pub put_state : Text → ConditionState → Method (Unit {0})
put_state key s = modify (λ e. record e { states = insert key s e.states })

-- `AlertEngine.reset`
unfoldable pub reset : AlertEngine → AlertEngine
reset e = record e { states = []; work_session_id = none; last_observed_at = none }

-- the lines of the first loop that note the observation
unfoldable pub note : SafetyViolation → ℕ → Option ConditionState → ConditionState
note violation observed_at none = record {
  violation = violation;
  first_observed_at = some observed_at;
  consecutive_observations = 1;
  consecutive_clear_observations = 0;
  active_alert = none;
  next_raise_allowed_at = none;
}
note violation observed_at (some s) = elim s.first_observed_at [
  | none ↦ record s {
    violation = violation;
    consecutive_clear_observations = 0;
    first_observed_at = some observed_at;
    consecutive_observations = 1;
  }
  | some first ↦ record s {
    violation = violation;
    consecutive_clear_observations = 0;
    consecutive_observations = s.consecutive_observations + 1;
  }
]

-- the alerts that a cycle has raised and escalated so far
abbrev pub Changes : Type 0
Changes = List (SafetyAlert ℕ) × List (SafetyAlert ℕ)

-- is a warning whose condition has become critical
unfoldable pub must_escalate : SafetyAlertSeverity → SafetyAlertSeverity → Bool
must_escalate warning critical = true
must_escalate _ _ = false

module _ (cfg : Settings) where
  -- `_can_raise`; differences of instants are compared as sums, which `timedelta`s of either sign
  -- allow
  unfoldable pub can_raise : ConditionState → ℕ → Bool
  can_raise s observed_at = elim s.first_observed_at [
    | none ↦ false
    | some first ↦
        leb cfg.minimum_consecutive_observations s.consecutive_observations
        && (leb (first + cfg.minimum_persistence) observed_at && elim s.next_raise_allowed_at [
          | none ↦ true
          | some allowed ↦ leb allowed observed_at
        ])
  ]

  -- `_temporal_severity`
  unfoldable pub temporal_severity : ConditionState → ℕ → Result SafetyAlertSeverity
  temporal_severity s observed_at = elim s.first_observed_at [
    | none ↦ err runtime_error
    | some first ↦ ok (if leb (first + cfg.critical_after) observed_at then critical else warning)
  ]

  -- `self._alert_id_factory()`
  abbrev pub next_alert_id : Method Uuid
  next_alert_id e = (ok (cfg.alert_id_factory e.issued), record e { issued = e.issued + 1 })

  -- the body of the second loop, for a condition that was not observed
  unfoldable pub clear_condition :
      ℕ → Text → ConditionState → List (SafetyAlert ℕ) → Method (List (SafetyAlert ℕ))
  clear_condition observed_at key s resolved =
      let cleared : ConditionState = record s {
        consecutive_observations = 0;
        first_observed_at = none;
      } in
      elim s.active_alert [
        | none ↦ do
          put_state key (record cleared { consecutive_clear_observations = 0 })
          pure resolved
        | some a ↦ do
          let count = s.consecutive_clear_observations + 1
          put_state key (record cleared { consecutive_clear_observations = count })
          if ltb count cfg.resolution_consecutive_observations then pure resolved else (do
            resolved_alert ← lift (resolve a (aware observed_at))
            put_state key (record cleared {
              active_alert = none;
              consecutive_clear_observations = 0;
              next_raise_allowed_at = some (observed_at + cfg.cooldown);
            })
            pure (resolved ++ (resolved_alert ∷ [])))
      ]

  -- the second loop, over the states as they stand when it begins
  unfoldable pub clear_absent :
      ℕ
      → Dict SafetyViolation
      → Dict ConditionState
      → List (SafetyAlert ℕ)
      → Method (List (SafetyAlert ℕ))
  clear_absent observed_at current [] resolved = pure resolved
  clear_absent observed_at current ((key, s) ∷ rest) resolved = do
    resolved' ←
        (if contains key current then pure resolved else clear_condition observed_at key s resolved)
    clear_absent observed_at current rest resolved'

-- the `replace` calls that turn a warning into a critical alert
unfoldable pub escalate : Str → SafetyAlert ℕ → Result (SafetyAlert ℕ)
escalate py a = elim (violation_init py (record a.violation { severity = critical })) [
  | err x ↦ err x
  | ok violation ↦ alert_init (record (alert_fields a) { violation = violation })
]

module _ (py : Str) (cfg : Settings) where
  -- `_raise_alert`
  unfoldable pub raise_alert : WorkSession ℕ → ConditionState → ℕ → Method (SafetyAlert ℕ)
  raise_alert ws s raised_at = do
    first_observed_at ← lift (or_raise s.first_observed_at runtime_error)
    severity ← lift (temporal_severity cfg s raised_at)
    violation ← lift (violation_init py (record s.violation { severity = severity }))
    alert_id ← next_alert_id cfg
    lift (
        alert_init (record {
          alert_id = alert_id;
          work_session_id = ws.session_id;
          operator_id = ws.operator_id;
          operation_id = ws.operation_id;
          camera_id = ws.camera_id;
          risk_area_id = ws.risk_area_id;
          violation = violation;
          first_observed_at = aware first_observed_at;
          raised_at = aware raised_at;
          resolved_at = none;
          status = Alert.active;
        }))

  -- the `elif` of the first loop, for the alert that is active
  unfoldable pub escalate_active :
      Text → ConditionState → SafetyAlert ℕ → ℕ → Changes → Method Changes
  escalate_active key s a observed_at (raised, escalated) = do
    severity ← lift (temporal_severity cfg s observed_at)
    if must_escalate a.violation.severity severity
        then (do
          escalated_alert ← lift (escalate py a)
          put_state key (record s { active_alert = some escalated_alert })
          pure (raised, escalated ++ (escalated_alert ∷ [])))
        else pure (raised, escalated)

  -- the `if` and the `elif` of the first loop
  unfoldable pub raise_or_escalate :
      WorkSession ℕ → ℕ → Text → ConditionState → Changes → Method Changes
  raise_or_escalate ws observed_at key s (raised, escalated) = elim s.active_alert [
    | none ↦
        if can_raise cfg s observed_at
        then (do
          alert ← raise_alert ws s observed_at
          put_state key (record s { active_alert = some alert })
          pure (raised ++ (alert ∷ []), escalated))
        else pure (raised, escalated)
    | some a ↦ escalate_active key s a observed_at (raised, escalated)
  ]

  -- the body of the first loop
  unfoldable pub observe_violation :
      WorkSession ℕ → ℕ → Text → SafetyViolation → Changes → Method Changes
  observe_violation ws observed_at key violation changes = do
    known ← gets (λ e. lookup key e.states)
    put_state key (note violation observed_at known)
    raise_or_escalate ws observed_at key (note violation observed_at known) changes

  -- the first loop, over the current violations
  unfoldable pub observe_current :
      WorkSession ℕ → ℕ → Dict SafetyViolation → Changes → Method Changes
  observe_current ws observed_at [] changes = pure changes
  observe_current ws observed_at ((key, violation) ∷ rest) changes = do
    changes' ← observe_violation ws observed_at key violation changes
    observe_current ws observed_at rest changes'
