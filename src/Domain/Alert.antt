-- ===== src/Domain/Alert.antt =====
-- 2identify_operador/app/domain/alert.py: violations and alerts. The fields of a value under
-- construction hold `DateTime`s (`T`), those of a finished one the instants that `_as_utc` left.
-- `isinstance` tests are the types; an identifier is a natural number, 0 standing for all that
-- `<= 0` refuses.
pub mod Laws
use identify.Base.{
  ℕ, Bool, true, false, not, ◌&&◌, ◌||◌, Option, none, some, ◌∷◌, ◌++◌, ltb, is_some, opt_all, Text,
  codes, is_empty, Str, normalize, DateTime, as_utc, aware,
}
use identify.Base.Result.{Result, ok, value_error, ◌>>=◌, ◌>>◌, raise_if, or_raise}
use mathlib.Core.Option

-- A `UUID`, by its number.
abbrev pub Uuid : Type 0
Uuid = ℕ

pub data SafetyViolationType : Type 0 where
  ppe_absent person_in_risk_area monitoring_interrupted ergonomic_risk : SafetyViolationType

-- the value of the enumeration's member
unfoldable pub value : SafetyViolationType → Text
value ppe_absent = codes "ppe_absent"
value person_in_risk_area = codes "person_in_risk_area"
value monitoring_interrupted = codes "monitoring_interrupted"
value ergonomic_risk = codes "ergonomic_risk"

pub data SafetyAlertSeverity : Type 0 where
  warning critical : SafetyAlertSeverity

pub data SafetyAlertStatus : Type 0 where
  active resolved : SafetyAlertStatus

pub record SafetyViolation : Type 0 where
  pub violation_type : SafetyViolationType
  pub subject_key : Text
  pub summary : Text
  pub severity : SafetyAlertSeverity
  pub ppe_id : Option ℕ
  pub ppe_name : Option Text
  pub track_id : Option ℕ

abbrev pub is_ppe_absent : SafetyViolationType → Bool
is_ppe_absent ppe_absent = true
is_ppe_absent _ = false

abbrev pub is_positive : ℕ → Bool
is_positive n = ltb 0 n

-- `SafetyViolation.__post_init__`, on the fields as they were given
unfoldable pub violation_init : Str → SafetyViolation → Result SafetyViolation
violation_init py v = do
  let subject_key = normalize py v.subject_key
  let summary = py.strip v.summary
  let ppe_name = Option.map py.strip v.ppe_name
  raise_if (is_empty subject_key || is_empty summary) value_error
  raise_if (not (opt_all is_positive v.ppe_id)) value_error
  raise_if (not (opt_all (λ name. not (is_empty name)) ppe_name)) value_error
  raise_if (not (opt_all is_positive v.track_id)) value_error
  raise_if (is_ppe_absent v.violation_type && not (is_some v.ppe_id && is_some ppe_name))
      value_error
  ok (record v { subject_key = subject_key; summary = summary; ppe_name = ppe_name })

-- `f"{self.violation_type.value}:{self.subject_key}"`
unfoldable pub deduplication_key : SafetyViolation → Text
deduplication_key v = value v.violation_type ++ (b':' ∷ v.subject_key)

pub record SafetyAlert (T : Type 0) : Type 0 where
  pub alert_id : Uuid
  pub work_session_id : Uuid
  pub operator_id : ℕ
  pub operation_id : ℕ
  pub camera_id : Option ℕ
  pub risk_area_id : Option ℕ
  pub violation : SafetyViolation
  pub first_observed_at : T
  pub raised_at : T
  pub resolved_at : Option T
  pub status : SafetyAlertStatus

-- `resolved_at`, checked against the status: the value to store
unfoldable pub alert_end : SafetyAlertStatus → Option DateTime → ℕ → Result (Option ℕ)
alert_end active resolved_at raised_at = do raise_if (is_some resolved_at) value_error; ok none
alert_end resolved resolved_at raised_at = do
  given ← or_raise resolved_at value_error
  ended ← or_raise (as_utc given) value_error
  raise_if (ltb ended raised_at) value_error
  ok (some ended)

-- `SafetyAlert.__post_init__`
unfoldable pub alert_init : SafetyAlert DateTime → Result (SafetyAlert ℕ)
alert_init a = do
  raise_if (not (is_positive a.operator_id && is_positive a.operation_id)) value_error
  raise_if (not (opt_all is_positive a.camera_id)) value_error
  raise_if (not (opt_all is_positive a.risk_area_id)) value_error
  first_observed_at ← or_raise (as_utc a.first_observed_at) value_error
  raised_at ← or_raise (as_utc a.raised_at) value_error
  raise_if (ltb raised_at first_observed_at) value_error
  resolved_at ← alert_end a.status a.resolved_at raised_at
  ok (record {
    alert_id = a.alert_id;
    work_session_id = a.work_session_id;
    operator_id = a.operator_id;
    operation_id = a.operation_id;
    camera_id = a.camera_id;
    risk_area_id = a.risk_area_id;
    violation = a.violation;
    first_observed_at = first_observed_at;
    raised_at = raised_at;
    resolved_at = resolved_at;
    status = a.status;
  })

-- The arguments that `dataclasses.replace` passes on from a finished alert.
abbrev pub alert_fields : SafetyAlert ℕ → SafetyAlert DateTime
alert_fields a = record {
  alert_id = a.alert_id;
  work_session_id = a.work_session_id;
  operator_id = a.operator_id;
  operation_id = a.operation_id;
  camera_id = a.camera_id;
  risk_area_id = a.risk_area_id;
  violation = a.violation;
  first_observed_at = aware a.first_observed_at;
  raised_at = aware a.raised_at;
  resolved_at = Option.map aware a.resolved_at;
  status = a.status;
}

abbrev pub is_active : SafetyAlertStatus → Bool
is_active active = true
is_active resolved = false

-- `SafetyAlert.resolve`
unfoldable pub resolve : SafetyAlert ℕ → DateTime → Result (SafetyAlert ℕ)
resolve a resolved_at = do
  raise_if (not (is_active a.status)) value_error
  alert_init (record (alert_fields a) { resolved_at = some resolved_at; status = resolved })
