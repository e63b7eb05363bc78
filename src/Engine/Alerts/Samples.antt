-- ===== src/Engine/Alerts/Samples.antt =====
-- The session, the violation and the states of the alert engine that its runs are shown on:
-- 2identify_operador/app/engine/alert.py.
use identify.Base.{
  ℕ, ◌+◌, ◌≡◌, refl, none, some, [], ◌∷◌, map, arith, Text, codes, plain_str, normalize, text_eq,
}
use identify.Base.Dict.{lookup, Distinct}
use identify.Domain.Alert.{
  SafetyViolation, SafetyAlert, ppe_absent, warning, critical, deduplication_key, value,
  violation_init, alert_init, alert_end, resolve,
}
use identify.Domain.Alert
use identify.Domain.Alert.Laws.{IsViolation}
use identify.Domain.WorkSession.{WorkSession}
use identify.Domain.WorkSession
use identify.Engine.Alerts.Defs.{Settings, ConditionState, AlertEngine}
use identify.Engine.Alerts.Spec.{IsSession}
use identify.Engine.Alerts.Normalize.{keyed}
use identify.Engine.Alerts.Theorems.{CanObserve, IsValid}
use identify.Engine.Alerts.History.{alert_of}

abbrev pub settings : Settings
settings = record {
  minimum_consecutive_observations = 2;
  minimum_persistence = 10;
  resolution_consecutive_observations = 2;
  cooldown = 30;
  critical_after = 100;
  alert_id_factory = λ n. n + 7;
  str_uuid = λ u. u ∷ [];
}

abbrev pub session : WorkSession ℕ
session = record {
  session_id = 1;
  operator_id = 2;
  operation_id = 3;
  camera_id = none;
  risk_area_id = none;
  verified_ppe_ids = 4 ∷ [];
  safety_verified_at = 50;
  ppe_sample_count = 5;
  ppe_window_size = 5;
  started_at = 60;
  finished_at = none;
  status = WorkSession.active;
}

abbrev pub helmet : SafetyViolation
helmet = record {
  violation_type = ppe_absent;
  subject_key = codes "helmet";
  summary = codes "no helmet";
  severity = warning;
  ppe_id = some 4;
  ppe_name = some (codes "helmet");
  track_id = none;
}

abbrev pub key : Text
key = codes "ppe_absent:helmet"

abbrev pub waiting : ConditionState
waiting = record {
  violation = helmet;
  first_observed_at = some 100;
  consecutive_observations = 1;
  consecutive_clear_observations = 0;
  active_alert = none;
  next_raise_allowed_at = none;
}

-- the engine after one observation
abbrev pub waiting_engine : AlertEngine
waiting_engine = record {
  states = (key, waiting) ∷ [];
  work_session_id = some 1;
  last_observed_at = some 100;
  issued = 0;
}

abbrev pub alert : SafetyAlert ℕ
alert = record {
  alert_id = 7;
  work_session_id = 1;
  operator_id = 2;
  operation_id = 3;
  camera_id = none;
  risk_area_id = none;
  violation = helmet;
  first_observed_at = 100;
  raised_at = 110;
  resolved_at = none;
  status = Alert.active;
}

abbrev pub raised : ConditionState
raised = record waiting { consecutive_observations = 2; active_alert = some alert }

-- the engine after two observations
abbrev pub raised_engine : AlertEngine
raised_engine = record {
  states = (key, raised) ∷ [];
  work_session_id = some 1;
  last_observed_at = some 110;
  issued = 1;
}

pub helmet-IsViolation : IsViolation plain_str helmet
unfolding violation_init normalize
helmet-IsViolation = refl

pub session-IsSession : IsSession session
session-IsSession = record { operator = refl; operation = refl; camera = refl; risk_area = refl }

pub waiting-IsValid : IsValid plain_str waiting_engine
waiting-IsValid = record {
  distinct = (refl, tt);
  tracked = (record { built = helmet-IsViolation; seen = omega arith; open_alert = tt }, tt);
}

pub raised-IsValid : IsValid plain_str raised_engine
unfolding alert_init alert_end
raised-IsValid = record {
  distinct = (refl, tt);
  tracked = (
    record {
      built = helmet-IsViolation;
      seen = omega arith;
      open_alert = record {
        built = refl;
        violation_built = helmet-IsViolation;
        is_active = refl;
        raised_before = omega arith;
      };
    },
    tt,
  );
}

pub can_see : CanObserve plain_str session (helmet ∷ []) 110 waiting_engine
can_see = record {
  session = session-IsSession;
  is_active = refl;
  started = omega arith;
  forward = omega arith;
  bound = refl;
  built = (helmet-IsViolation, tt);
  distinct = (refl, tt);
}

pub waiting_idle : alert_of (lookup key waiting_engine.states) ≡ none
unfolding text_eq
waiting_idle = refl

pub known_raised : lookup key raised_engine.states ≡ some raised
unfolding text_eq
known_raised = refl

pub raised_open : alert_of (lookup key raised_engine.states) ≡ some alert
unfolding text_eq
raised_open = refl

pub helmet_twice : ¬ Distinct (map keyed (helmet ∷ helmet ∷ []))
unfolding text_eq deduplication_key value
helmet_twice (h, k) = ground arith
