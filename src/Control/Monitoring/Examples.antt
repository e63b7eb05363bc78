-- ===== src/Control/Monitoring/Examples.antt =====
-- A cycle of 2identify_operador/app/controllers/active_ppe_monitoring_controller.py with a missing
-- helmet and a person in the area of a press.
use identify.Base.{
  ℕ, ◌+◌, ◌≡◌, refl, true, false, none, some, [], ◌∷◌, arith, codes, plain_str, normalize, aware,
}
use identify.Base.Result.{ok}
use identify.Domain.Alert.{
  SafetyViolation, ppe_absent, person_in_risk_area, critical, violation_init,
}
use identify.Domain.WorkSession.{WorkSession}
use identify.Domain.WorkSession
use identify.Engine.Alerts.Defs.{AlertEngine, AlertEngineUpdate}
use identify.Engine.Alerts.Cycle.{observe}
use identify.Control.Monitoring.Defs.{
  ActivePpeMonitoringController, MonitoringSettings, safety_settings, ActivePage, merged,
  report_updates, observe_alerts,
}
use identify.Control.Monitoring.Merged.{IsSource}
use identify.Control.Monitoring.Watch.{IsReady, IsWatching, observe_alerts_lem}

abbrev settings : MonitoringSettings
settings = record {
  alerts = record {
    minimum_consecutive_observations = 2;
    minimum_persistence = 10;
    resolution_consecutive_observations = 2;
    cooldown = 30;
    critical_after = 100;
    alert_id_factory = λ n. n + 7;
    str_uuid = λ u. u ∷ [];
  };
  safety_id_factory = λ n. n + 1000;
  safety_state_sync_interval = 60;
}

abbrev session : WorkSession ℕ
session = record {
  session_id = 1;
  operator_id = 2;
  operation_id = 3;
  camera_id = none;
  risk_area_id = none;
  verified_ppe_ids = 4 ∷ [];
  safety_verified_at = 50;
  ppe_sample_count = 5;
  ppe_window_size = 5;
  started_at = 60;
  finished_at = none;
  status = WorkSession.active;
}

abbrev page : ActivePage
page = record { operation = none; work_session = some session; is_monitoring_active = true }

abbrev no_helmet : SafetyViolation
no_helmet = record {
  violation_type = ppe_absent;
  subject_key = codes "ppe:4";
  summary = codes "no helmet";
  severity = critical;
  ppe_id = some 4;
  ppe_name = some (codes "helmet");
  track_id = none;
}

abbrev in_area : SafetyViolation
in_area = record {
  violation_type = person_in_risk_area;
  subject_key = codes "risk_area:7";
  summary = codes "person";
  severity = critical;
  ppe_id = none;
  ppe_name = none;
  track_id = none;
}

abbrev fresh : AlertEngine
fresh = record { states = []; work_session_id = none; last_observed_at = none; issued = 0 }

abbrev controller : ActivePpeMonitoringController ℕ
controller = record {
  stability_engine = record {
    window_size = 1;
    minimum_samples = 1;
    present_ratio = 2;
    absent_ratio = 0;
    required_classes = [];
    observations = [];
  };
  alert_engine = fresh;
  safety_state_engine = fresh;
  tracker = record {
    iou_threshold = 1;
    maximum_missed_batches = 2;
    minimum_confirmation_hits = 2;
    tracks = [];
    next_track_id = 1;
    sequence_number = 0;
  };
  last_safety_state_sync_at = none;
  model_classes = [];
  ppe_violations = no_helmet ∷ [];
  ergonomic_violations = [];
  risk_area_violations = in_area ∷ [];
  model_ready = true;
  worker = none;
  restart_after_finish = false;
}

fresh-IsReady : IsReady plain_str session 100 fresh
fresh-IsReady = record { valid = record { distinct = tt; tracked = tt }; forward = tt; bound = tt }

ppe-IsSource : IsSource plain_str ppe_absent (no_helmet ∷ [])
unfolding violation_init normalize
ppe-IsSource = record { built = (refl, tt); kinds = (refl, tt); subjects = (tt, tt) }

area-IsSource : IsSource plain_str person_in_risk_area (in_area ∷ [])
unfolding violation_init normalize
area-IsSource = record { built = (refl, tt); kinds = (refl, tt); subjects = (tt, tt) }

watching : IsWatching plain_str page session 100 controller
watching = record {
  shows = refl;
  monitors = refl;
  session = record { operator = refl; operation = refl; camera = refl; risk_area = refl };
  active = refl;
  started = omega arith;
  alerts = fresh-IsReady;
  states = fresh-IsReady;
  ppe = ppe-IsSource;
  ergonomic = record { built = tt; kinds = tt; subjects = tt };
  risk_area = area-IsSource;
}

observe_alerts_lem_example :
    (u1 : AlertEngineUpdate) × (u2 : AlertEngineUpdate) × (e1 : AlertEngine) × (e2 : AlertEngine)
    × (observe_alerts plain_str settings page 100 controller
        ≡ report_updates plain_str settings session 100 u1 u2
            (record controller { alert_engine = e1; safety_state_engine = e2 }))
    × (observe plain_str settings.alerts session (merged plain_str controller) (aware 100) fresh
        ≡ (ok u1, e1))
    × (observe plain_str
          (safety_settings settings)
          session
          (merged plain_str controller)
          (aware 100)
          fresh
        ≡ (ok u2, e2))
    × IsReady plain_str session 100 e1
    × IsReady plain_str session 100 e2
observe_alerts_lem_example =
    observe_alerts_lem plain_str settings page session 100 controller watching
