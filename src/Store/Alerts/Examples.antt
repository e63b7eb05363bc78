-- ===== src/Store/Alerts/Examples.antt =====
-- A delivery and its repetition, for 2identify_api/app/repositories/safety_alert_repository.py.
use identify.Base.{◌≡◌, refl, true, false, none, [], codes}
use identify.Base.Result.{ok}
use identify.Domain.Alert.{critical}
use identify.Store.Alerts.Defs.{
  Database, AlertEvent, StoredAlert, accepted, conflicting, get_ingestion, get_alert, inserted,
  store,
}
use identify.Store.Alerts.Laws.{store_idempotent}

abbrev event : AlertEvent
event = record {
  event_id = 11;
  payload_hash = codes "h";
  legacy_payload_hash = codes "l";
  work_session_id = 1;
  operator_id = 2;
  operation_id = 3;
  camera_id = none;
  risk_area_id = none;
  violation_type = codes "ppe_absent";
  subject_key = codes "helmet";
  summary = codes "no helmet";
  severity = critical;
  detected_at = 100;
}

abbrev no_rows : Database
no_rows = record { occurrences = []; alerts = []; ingestions = [] }

abbrev answer : StoredAlert
answer = record { event_id = 11; alert_id = 6; occurrence_id = 5; duplicate = false }

first_delivery : store event 110 5 6 accepted no_rows ≡ (ok answer, inserted event 110 5 6 no_rows)
unfolding store get_ingestion
first_delivery = refl

fresh_id : get_alert 6 no_rows.alerts ≡ none
unfolding get_alert
fresh_id = refl

store_idempotent_example :
    store event 120 8 9 (conflicting no_rows) (inserted event 110 5 6 no_rows)
    ≡ (ok (record answer { duplicate = true }), inserted event 110 5 6 no_rows)
store_idempotent_example =
    store_idempotent event 110 5 6 accepted no_rows (inserted event 110 5 6 no_rows) answer 120 8 9
      (conflicting no_rows) fresh_id first_delivery
