-- ===== src/Services/SafetyState/Defs.antt =====
-- 2identify_operador/app/services/safety_state_service.py: the snapshot of the open alerts. The
-- delivery of a snapshot is a call of an HTTP client, and is not modelled.
use identify.Base.{
  ℕ, Bool, true, not, ◌&&◌, Option, none, some, List, [], ◌∷◌, map, any, ltb, opt_all, is_empty,
  Text, text_lt, Str, normalize, DateTime, aware, as_utc,
}
use identify.Base.Result.{Result, ok, value_error, ◌>>=◌, ◌>>◌, raise_if, or_raise}
use identify.Base.Sort.{sorted}
use identify.Domain.Alert.{
  Uuid, SafetyAlert, SafetyAlertSeverity, SafetyViolationType, deduplication_key, is_active,
  is_positive,
}
use identify.Domain.Alert
use identify.Domain.Operation.{mem_text}
use identify.Domain.WorkSession.{WorkSession}

pub data SafetyStateLevel : Type 0 where
  medium critical : SafetyStateLevel

pub data SafetyStateReason : Type 0 where
  ppe_missing ergonomic_risk person_in_risk_area : SafetyStateReason

-- `_REASON_BY_VIOLATION.get`
abbrev pub reason_by_violation : SafetyViolationType → Option SafetyStateReason
reason_by_violation Alert.ppe_absent = some ppe_missing
reason_by_violation Alert.ergonomic_risk = some ergonomic_risk
reason_by_violation Alert.person_in_risk_area = some person_in_risk_area
reason_by_violation Alert.monitoring_interrupted = none

-- `T` is `DateTime` for a value under construction and an instant for a finished one
pub record SafetyConditionState (T : Type 0) : Type 0 where
  pub condition_id : Text
  pub reason : SafetyStateReason
  pub level : SafetyStateLevel
  pub first_observed_at : T

-- `SafetyConditionState.__post_init__`
unfoldable pub condition_init :
    Str → SafetyConditionState DateTime → Result (SafetyConditionState ℕ)
condition_init py c = do
  let identifier = normalize py c.condition_id
  raise_if (is_empty identifier) value_error
  observed ← or_raise (as_utc c.first_observed_at) value_error
  ok (record {
    condition_id = identifier;
    reason = c.reason;
    level = c.level;
    first_observed_at = observed;
  })

pub record SafetyStateSnapshot (T : Type 0) : Type 0 where
  pub work_session_id : Uuid
  pub operation_id : ℕ
  pub camera_id : Option ℕ
  pub observed_at : T
  pub conditions : List (SafetyConditionState ℕ)

-- the conditions' identifiers differ
abbrev pub unique_ids : List (SafetyConditionState ℕ) → Bool
unique_ids [] = true
unique_ids (c ∷ cs) = not (mem_text c.condition_id (map (λ d. d.condition_id) cs)) && unique_ids cs

-- `SafetyStateSnapshot.__post_init__`
unfoldable pub snapshot_init : SafetyStateSnapshot DateTime → Result (SafetyStateSnapshot ℕ)
snapshot_init s = do
  raise_if (not (is_positive s.operation_id)) value_error
  raise_if (not (opt_all is_positive s.camera_id)) value_error
  raise_if (not (unique_ids s.conditions)) value_error
  observed_at ← or_raise (as_utc s.observed_at) value_error
  raise_if (any (λ c. ltb observed_at c.first_observed_at) s.conditions) value_error
  ok (record {
    work_session_id = s.work_session_id;
    operation_id = s.operation_id;
    camera_id = s.camera_id;
    observed_at = observed_at;
    conditions = s.conditions;
  })

abbrev pub level_of : SafetyAlertSeverity → SafetyStateLevel
level_of Alert.critical = critical
level_of Alert.warning = medium

-- the key of `sorted`
abbrev pub condition_lt : SafetyConditionState ℕ → SafetyConditionState ℕ → Bool
condition_lt a b = text_lt a.condition_id b.condition_id

-- the loop of `from_alerts`
unfoldable pub collect_conditions :
    Str → List (SafetyAlert ℕ) → Result (List (SafetyConditionState ℕ))
collect_conditions py [] = ok []
collect_conditions py (alert ∷ alerts) = do
  raise_if (not (is_active alert.status)) value_error
  (elim (reason_by_violation alert.violation.violation_type) [
    | none ↦ collect_conditions py alerts
    | some reason ↦ (do
      condition ← condition_init py (record {
        condition_id = deduplication_key alert.violation;
        reason = reason;
        level = level_of alert.violation.severity;
        first_observed_at = aware alert.first_observed_at;
      })
      conditions ← collect_conditions py alerts
      ok (condition ∷ conditions))
  ])

-- `SafetyStateSnapshot.from_alerts`
unfoldable pub from_alerts :
    Str → WorkSession ℕ → List (SafetyAlert ℕ) → DateTime → Result (SafetyStateSnapshot ℕ)
from_alerts py ws alerts observed_at = do
  conditions ← collect_conditions py alerts
  snapshot_init (record {
    work_session_id = ws.session_id;
    operation_id = ws.operation_id;
    camera_id = ws.camera_id;
    observed_at = observed_at;
    conditions = sorted condition_lt conditions;
  })
