-- ===== src/Engine/Alerts/Spec.antt =====
-- What one observation means for one condition: the automaton of `AlertEngine` with the
-- constructors, the exceptions and the dictionary gone.
use identify.Base.{
  ℕ, ◌+◌, ◌≤◌, ◌≡◌, true, Option, none, some, List, [], ◌∷◌, ◌++◌, All, ltb, leb, if◌then◌else◌,
  Str, opt_all,
}
use identify.Base.Dict.{Dict, Distinct}
use identify.Domain.Alert.{Uuid, SafetyAlert, SafetyAlertSeverity, warning, critical}
use identify.Domain.Alert
use identify.Domain.Alert.Laws.{IsViolation, IsAlert}
use identify.Domain.WorkSession.{WorkSession}
use identify.Engine.Alerts.Defs.{Settings, ConditionState, Changes, must_escalate, can_raise}

-- What the engine decides about a condition that it observes.
pub data Decision : Type 0 where
  quiet : Decision
  raise escalate : SafetyAlert ℕ → Decision

abbrev pub severity_at : Settings → ℕ → ℕ → SafetyAlertSeverity
severity_at cfg first t = if leb (first + cfg.critical_after) t then critical else warning

abbrev pub new_alert : Settings → WorkSession ℕ → ConditionState → ℕ → Uuid → ℕ → SafetyAlert ℕ
new_alert cfg ws s t id first = record {
  alert_id = id;
  work_session_id = ws.session_id;
  operator_id = ws.operator_id;
  operation_id = ws.operation_id;
  camera_id = ws.camera_id;
  risk_area_id = ws.risk_area_id;
  violation = record s.violation { severity = severity_at cfg first t };
  first_observed_at = first;
  raised_at = t;
  resolved_at = none;
  status = Alert.active;
}

abbrev pub with_critical : SafetyAlert ℕ → SafetyAlert ℕ
with_critical a = record a { violation = record a.violation { severity = critical } }

unfoldable pub decide : Settings → WorkSession ℕ → ℕ → Uuid → ConditionState → Decision
decide cfg ws t id s = elim s.first_observed_at [
  | none ↦ quiet
  | some first ↦ elim s.active_alert [
    | none ↦ if can_raise cfg s t then raise (new_alert cfg ws s t id first) else quiet
    | some a ↦
        if must_escalate a.violation.severity (severity_at cfg first t)
        then escalate (with_critical a)
        else quiet
  ]
]

abbrev pub after : Decision → ConditionState → ConditionState
after quiet s = s
after (raise a) s = record s { active_alert = some a }
after (escalate a) s = record s { active_alert = some a }

abbrev pub report : Decision → Changes → Changes
report quiet changes = changes
report (raise a) (raised, escalated) = (raised ++ (a ∷ []), escalated)
report (escalate a) (raised, escalated) = (raised, escalated ++ (a ∷ []))

abbrev pub issue : Decision → ℕ → ℕ
issue (raise a) n = n + 1
issue _ n = n

-- the condition after a cycle that did not observe it
unfoldable pub absent : Settings → ℕ → ConditionState → ConditionState
absent cfg t s = elim s.active_alert [
  | none ↦ record s {
    consecutive_observations = 0;
    first_observed_at = none;
    consecutive_clear_observations = 0;
  }
  | some a ↦
      if ltb (s.consecutive_clear_observations + 1) cfg.resolution_consecutive_observations
      then (record s {
        consecutive_observations = 0;
        first_observed_at = none;
        consecutive_clear_observations = s.consecutive_clear_observations + 1;
      })
      else (record s {
        consecutive_observations = 0;
        first_observed_at = none;
        consecutive_clear_observations = 0;
        active_alert = none;
        next_raise_allowed_at = some (t + cfg.cooldown);
      })
]

-- the alert that such a cycle resolves
unfoldable pub resolution : Settings → ℕ → ConditionState → List (SafetyAlert ℕ)
resolution cfg t s = elim s.active_alert [
  | none ↦ []
  | some a ↦
      if ltb (s.consecutive_clear_observations + 1) cfg.resolution_consecutive_observations
      then []
      else record a { resolved_at = some t; status = Alert.resolved } ∷ []
]

-- An alert that is open at the instant `t`.
pub record IsOpen (py : Str) (t : ℕ) (a : SafetyAlert ℕ) : Type 0 where
  pub built : IsAlert a
  pub violation_built : IsViolation py a.violation
  pub is_active : a.status ≡ Alert.active
  pub raised_before : a.raised_at ≤ t

abbrev pub OpenIfAny : Str → ℕ → Option (SafetyAlert ℕ) → Type 0
OpenIfAny py t none = Unit
OpenIfAny py t (some a) = IsOpen py t a

abbrev pub SeenBefore : ℕ → Option ℕ → Type 0
SeenBefore t none = Unit
SeenBefore t (some first) = first ≤ t

-- What the engine knows of a condition at the instant `t`.
pub record IsTracked (py : Str) (t : ℕ) (s : ConditionState) : Type 0 where
  pub built : IsViolation py s.violation
  pub seen : SeenBefore t s.first_observed_at
  pub open_alert : OpenIfAny py t s.active_alert

-- No condition is listed twice, and each is tracked.
pub record AreTracked (py : Str) (t : ℕ) (states : Dict ConditionState) : Type 0 where
  pub distinct : Distinct states
  pub tracked : All (λ entry. IsTracked py t entry.1) states

-- The identifiers of a session are those that an alert accepts.
pub record IsSession (ws : WorkSession ℕ) : Type 0 where
  pub operator : Alert.is_positive ws.operator_id ≡ true
  pub operation : Alert.is_positive ws.operation_id ≡ true
  pub camera : opt_all Alert.is_positive ws.camera_id ≡ true
  pub risk_area : opt_all Alert.is_positive ws.risk_area_id ≡ true
