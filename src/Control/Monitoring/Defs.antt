-- ===== src/Control/Monitoring/Defs.antt =====
-- 2identify_operador/app/controllers/active_ppe_monitoring_controller.py. A slot is a handler from
-- the state to a result, the effects and the state after it. The worker is its answers to `isRunning`
-- and `isInterruptionRequested`; a raise of the tracker is given without the tracks that it leaves,
-- and the logging is left out.
use identify.Base.{
  ℕ, ◌+◌, Bool, true, false, ◌||◌, Option, none, some, List, [], ◌∷◌, ◌++◌, leb, Text, codes, Str,
  aware, if◌then◌else◌,
}
use identify.Base.Result.{Result, ok, err, ◌>>=◌}
use identify.Domain.Alert.{Uuid, SafetyViolation, SafetyAlert, ppe_absent, critical, violation_init}
use identify.Domain.Operation.{Operation}
use identify.Domain.WorkSession.{WorkSession}
use identify.Engine.Alerts.Defs.{Settings, AlertEngine, AlertEngineUpdate}
use identify.Engine.Alerts.Cycle as Cycle
use identify.Engine.Stability.Defs.{PpeStabilityEngine}
use identify.Engine.Stability.Defs as Stability
use identify.Engine.Safety.Defs.{PpeSafetyAssessment, PpeRequirementAssessment, is_absent}
use identify.Services.SafetyState.Defs.{SafetyStateSnapshot, from_alerts}
use identify.Vision.Tracking.Tracker.{PpeDetectionBatch, PpeTrackingBatch, PpeDetectionTracker}
use identify.Vision.Tracking.Tracker

pub record Worker : Type 0 where
  pub running : Bool
  pub interrupted : Bool

pub record ActivePpeMonitoringController (F : Type 0) : Type 0 where
  pub stability_engine : PpeStabilityEngine F
  pub alert_engine : AlertEngine
  pub safety_state_engine : AlertEngine
  pub tracker : PpeDetectionTracker F
  pub last_safety_state_sync_at : Option ℕ
  pub model_classes : List Text
  pub ppe_violations : List SafetyViolation
  pub ergonomic_violations : List SafetyViolation
  pub risk_area_violations : List SafetyViolation
  pub model_ready : Bool
  pub worker : Option Worker
  pub restart_after_finish : Bool

-- The settings of the two engines, which differ in the cooldown and the identifiers, and the interval
-- of the synchronisation in microseconds.
pub record MonitoringSettings : Type 0 where
  pub alerts : Settings
  pub safety_id_factory : ℕ → Uuid
  pub safety_state_sync_interval : ℕ

abbrev pub safety_settings : MonitoringSettings → Settings
safety_settings cfg = record (cfg.alerts) { cooldown = 0; alert_id_factory = cfg.safety_id_factory }

pub record ActivePage : Type 0 where
  pub operation : Option Operation
  pub work_session : Option (WorkSession ℕ)
  pub is_monitoring_active : Bool

pub data Effect (F : Type 0) : Type 0 where
  show_monitoring_inference_loading show_monitoring_inference_failure : Effect F
  show_monitoring_inference_ready : List Text → Effect F
  update_monitoring_tracking_overlay : PpeTrackingBatch F → Effect F
  update_monitoring_assessment : PpeSafetyAssessment → Effect F
  update_local_alerts local_alert_update_ready : AlertEngineUpdate → Effect F
  safety_state_snapshot_ready : SafetyStateSnapshot ℕ → Effect F
  worker_start worker_request_stop worker_delete_later schedule_start : Effect F

abbrev pub Outcome : Type 0 → Type 0
Outcome F = Result (Unit {0}) × List (Effect F) × ActivePpeMonitoringController F

abbrev pub has_alerts : List (SafetyAlert ℕ) → Bool
has_alerts [] = false
has_alerts (a ∷ alerts) = true

-- `changed` and `safety_changed`
abbrev pub is_changed : AlertEngineUpdate → Bool
is_changed u =
    has_alerts u.raised_alerts || has_alerts u.resolved_alerts || has_alerts u.escalated_alerts

module _ (py : Str) (str_int : ℕ → Text) where
  -- the violation of an absent item; `str_int` is `str` of an integer
  abbrev pub absent_violation : PpeRequirementAssessment → SafetyViolation
  absent_violation r = record {
    violation_type = ppe_absent;
    subject_key = codes "ppe:" ++ str_int r.ppe_id;
    summary = codes "EPI obrigatório ausente: " ++ r.name;
    severity = critical;
    ppe_id = some r.ppe_id;
    ppe_name = some r.name;
    track_id = none;
  }

  -- `_violations_for`, of the requirements of the assessment
  unfoldable pub violations_for : List PpeRequirementAssessment → Result (List SafetyViolation)
  violations_for [] = ok []
  violations_for (r ∷ rs) =
      let rest = violations_for rs in
      if is_absent r.state
      then (violation_init py (absent_violation r) >>= λ v. rest >>= λ vs. ok (v ∷ vs))
      else rest

-- the test that a snapshot is to be sent without a change
abbrev pub is_due : MonitoringSettings → Option ℕ → ℕ → Bool
is_due cfg none now = true
is_due cfg (some last) now = leb (last + cfg.safety_state_sync_interval) now

-- the worker after `request_stop`
abbrev pub interrupt : Worker → Worker
interrupt w = record w { interrupted = true }

module _ {F : Type 0} where
  -- `_dispose_finished_worker`
  unfoldable pub dispose_finished_worker :
      ActivePpeMonitoringController F → List (Effect F) × ActivePpeMonitoringController F
  dispose_finished_worker c = elim c.worker [
    | none ↦ ([], c)
    | some w ↦ if w.running then ([], c) else (worker_delete_later ∷ [], record c { worker = none })
  ]

module _ {F : Type 0} (py : Str) where
  -- `_reset_runtime`
  unfoldable pub reset_runtime :
      ActivePpeMonitoringController F → Result (Unit {0}) × ActivePpeMonitoringController F
  reset_runtime c =
      let (result, engine) = Stability.reset py c.stability_engine [] in
      let cleared : ActivePpeMonitoringController F = record c {
        model_ready = false;
        model_classes = [];
        stability_engine = engine;
      } in
      elim result [
        | err x ↦ (err x, cleared)
        | ok done ↦ (
          ok tt,
          record cleared {
            tracker = Tracker.reset c.tracker;
            ppe_violations = [];
            ergonomic_violations = [];
            risk_area_violations = [];
            last_safety_state_sync_at = none;
          },
        )
      ]

  -- `_emit_safety_snapshot`, after other effects
  abbrev pub emit :
      WorkSession ℕ
      → List (SafetyAlert ℕ)
      → ℕ
      → List (Effect F)
      → ActivePpeMonitoringController F
      → Outcome F
  emit ws alerts now before c = elim (from_alerts py ws alerts (aware now)) [
    | err x ↦ (err x, before, c)
    | ok s ↦ (
      ok tt,
      before ++ (safety_state_snapshot_ready s ∷ []),
      record c { last_safety_state_sync_at = some now },
    )
  ]

  -- what follows the two observations in `_observe_alerts`
  unfoldable pub report_updates :
      MonitoringSettings
      → WorkSession ℕ
      → ℕ
      → AlertEngineUpdate
      → AlertEngineUpdate
      → ActivePpeMonitoringController F
      → Outcome F
  report_updates cfg ws now alert_update safety_update c =
      let local =
        if is_changed alert_update
        then update_local_alerts alert_update ∷ local_alert_update_ready alert_update ∷ []
        else [] in
      if is_changed safety_update || is_due cfg c.last_safety_state_sync_at now
      then emit ws safety_update.active_alerts now local c
      else (ok tt, local, c)

  -- the violations that `_observe_alerts` merges
  abbrev pub merged : ActivePpeMonitoringController F → List SafetyViolation
  merged c = c.ppe_violations ++ (c.ergonomic_violations ++ c.risk_area_violations)

  -- what `_observe_alerts` makes of its two observations
  abbrev pub after_observations :
      MonitoringSettings
      → WorkSession ℕ
      → ℕ
      → ActivePpeMonitoringController F
      → Result AlertEngineUpdate × AlertEngine
      → Result AlertEngineUpdate × AlertEngine
      → Outcome F
  after_observations cfg ws now c (err x, e1) second = (err x, [], record c { alert_engine = e1 })
  after_observations cfg ws now c (ok u1, e1) (err x, e2) =
      (err x, [], record c { alert_engine = e1; safety_state_engine = e2 })
  after_observations cfg ws now c (ok u1, e1) (ok u2, e2) =
      report_updates cfg ws now u1 u2 (record c { alert_engine = e1; safety_state_engine = e2 })

  -- the two observations of `_observe_alerts` in a session
  unfoldable pub observe_session :
      MonitoringSettings → WorkSession ℕ → ℕ → ActivePpeMonitoringController F → Outcome F
  observe_session cfg ws now c =
      after_observations cfg ws now c
        (Cycle.observe py cfg.alerts ws (merged c) (aware now) c.alert_engine)
        (Cycle.observe py (safety_settings cfg) ws (merged c) (aware now) c.safety_state_engine)

  -- `_observe_alerts`; `now` is the instant of `datetime.now(UTC)`
  unfoldable pub observe_alerts :
      MonitoringSettings → ActivePage → ℕ → ActivePpeMonitoringController F → Outcome F
  observe_alerts cfg page now c = elim page.work_session [
    | none ↦ (ok tt, [], c)
    | some ws ↦ if page.is_monitoring_active then observe_session cfg ws now c else (ok tt, [], c)
  ]

  -- `handle_ergonomic_assessment` and `handle_risk_area_assessment`, by the violations of the value
  unfoldable pub handle_ergonomic_assessment :
      MonitoringSettings
      → ActivePage
      → Option (List SafetyViolation)
      → ℕ
      → ActivePpeMonitoringController F
      → Outcome F
  handle_ergonomic_assessment cfg page none now c = (ok tt, [], c)
  handle_ergonomic_assessment cfg page (some violations) now c =
      observe_alerts cfg page now (record c { ergonomic_violations = violations })

  unfoldable pub handle_risk_area_assessment :
      MonitoringSettings
      → ActivePage
      → Option (List SafetyViolation)
      → ℕ
      → ActivePpeMonitoringController F
      → Outcome F
  handle_risk_area_assessment cfg page none now c = (ok tt, [], c)
  handle_risk_area_assessment cfg page (some violations) now c =
      observe_alerts cfg page now (record c { risk_area_violations = violations })
