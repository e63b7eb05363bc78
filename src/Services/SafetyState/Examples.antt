-- ===== src/Services/SafetyState/Examples.antt =====
-- The snapshot of 2identify_operador/app/services/safety_state_service.py with one open alert.
use identify.Base.{ℕ, ◌≡◌, refl, none, some, [], ◌∷◌, arith, codes, plain_str, normalize, aware}
use mathlib.Core.List.{Perm}
use identify.Base.Result.{ok}
use identify.Base.Sort.{IsSorted}
use identify.Domain.Alert.{SafetyAlert, ppe_absent, warning, deduplication_key, value}
use identify.Domain.Alert
use identify.Domain.WorkSession.{WorkSession}
use identify.Domain.WorkSession
use identify.Services.SafetyState.Defs.{SafetyStateSnapshot, condition_lt, from_alerts}
use identify.Services.SafetyState.Laws.{IsReportable, conditions_of, from_alerts_lem}

abbrev session : WorkSession ℕ
session = record {
  session_id = 1;
  operator_id = 2;
  operation_id = 3;
  camera_id = none;
  risk_area_id = none;
  verified_ppe_ids = 4 ∷ [];
  safety_verified_at = 50;
  ppe_sample_count = 5;
  ppe_window_size = 5;
  started_at = 60;
  finished_at = none;
  status = WorkSession.active;
}

abbrev alert : SafetyAlert ℕ
alert = record {
  alert_id = 7;
  work_session_id = 1;
  operator_id = 2;
  operation_id = 3;
  camera_id = none;
  risk_area_id = none;
  violation = record {
    violation_type = ppe_absent;
    subject_key = codes "helmet";
    summary = codes "no helmet";
    severity = warning;
    ppe_id = some 4;
    ppe_name = some (codes "helmet");
    track_id = none;
  };
  first_observed_at = 100;
  raised_at = 110;
  resolved_at = none;
  status = Alert.active;
}

alert-IsReportable : IsReportable plain_str 120 alert
unfolding normalize deduplication_key value
alert-IsReportable = record { opened = refl; normal = refl; named = refl; begun = omega arith }

from_alerts_example :
    (s : SafetyStateSnapshot ℕ) × (from_alerts plain_str session (alert ∷ []) (aware 120) ≡ ok s)
    × (s.work_session_id ≡ 1)
    × (s.operation_id ≡ 3)
    × (s.camera_id ≡ none)
    × (s.observed_at ≡ 120)
    × Perm s.conditions (conditions_of (alert ∷ []))
    × IsSorted condition_lt s.conditions
from_alerts_example =
    from_alerts_lem plain_str session (alert ∷ []) 120 refl refl (alert-IsReportable, tt) refl
