-- ===== src/Control/Monitoring/Slots.antt =====
-- The slots of 2identify_operador/app/controllers/active_ppe_monitoring_controller.py that start and
-- stop the monitoring and that take a frame.
use identify.Base.{
  ℕ, Bool, true, false, not, ◌||◌, ◌&&◌, Option, none, some, List, [], ◌∷◌, ◌++◌, map, is_some,
  Text, Str, normalize, if◌then◌else◌,
}
use identify.Base.Floats.{Floats}
use identify.Base.Result.{Result, ok, err, ◌>>=◌}
use identify.Domain.Operation.{Operation}
use identify.Engine.Alerts.Defs.{Settings, AlertEngine, AlertEngineUpdate}
use identify.Engine.Alerts.Defs as Alerts
use identify.Engine.Stability.Defs.{PpeStabilityEngine}
use identify.Engine.Stability.Defs as Stability
use identify.Engine.Safety.Defs.{PpeSafetyAssessment, PpeRequirementAssessment, is_absent}
use identify.Engine.Safety.Defs as Safety
use identify.Vision.Tracking.Defs.{Arithmetic}
use identify.Vision.Tracking.Tracker.{PpeDetectionBatch, PpeTrackingBatch, PpeDetectionTracker}
use identify.Vision.Tracking.Tracker
use identify.Control.Inference.Defs.{required_classes}
use identify.Control.Monitoring.Defs.{
  ActivePpeMonitoringController, MonitoringSettings, safety_settings, ActivePage,
  show_monitoring_inference_loading, show_monitoring_inference_failure,
  show_monitoring_inference_ready, update_monitoring_tracking_overlay, update_monitoring_assessment,
  worker_start, worker_request_stop, worker_delete_later, schedule_start, Outcome, violations_for,
  dispose_finished_worker, reset_runtime, emit, observe_alerts, interrupt,
}

module _ {F : Type 0} (py : Str) where
  -- `_emit_safe_snapshot`
  unfoldable pub emit_safe_snapshot : ActivePage → ℕ → ActivePpeMonitoringController F → Outcome F
  emit_safe_snapshot page now c = elim page.work_session [
    | none ↦ (ok tt, [], c)
    | some ws ↦ emit py ws [] now [] (record c { last_safety_state_sync_at = some now })
  ]

  -- a call that may raise, and what follows it
  abbrev pub and_then : Outcome F → (ActivePpeMonitoringController F → Outcome F) → Outcome F
  and_then (err x, effects, c) after = (err x, effects, c)
  and_then (ok done, effects, c) after =
      let (result, more, c') = after c in (result, effects ++ more, c')

  -- `_reset_runtime` and the resets of the two engines
  abbrev pub reset_all : ActivePpeMonitoringController F → Outcome F
  reset_all c =
      let (result, c') = reset_runtime py c in
      elim result [
        | err x ↦ (err x, [], c')
        | ok done ↦ (
          ok tt,
          [],
          record c' {
            alert_engine = Alerts.reset c'.alert_engine;
            safety_state_engine = Alerts.reset c'.safety_state_engine;
          },
        )
      ]

  -- `stop`
  unfoldable pub stop : ActivePage → ℕ → ActivePpeMonitoringController F → Outcome F
  stop page now c =
      and_then
        (and_then (emit_safe_snapshot page now (record c { restart_after_finish = false }))
          reset_all)
        (λ d. elim d.worker [
          | none ↦ (ok tt, [], d)
          | some w ↦
              if w.running
              then (ok tt, worker_request_stop ∷ [], record d { worker = some (interrupt w) })
              else (ok tt, [], d)
        ])

  -- `shutdown`; `waited` is the answer of `wait`, after which the thread has ended
  unfoldable pub shutdown : ActivePage → ℕ → Bool → ActivePpeMonitoringController F → Outcome F
  shutdown page now waited c =
      and_then
        (and_then (emit_safe_snapshot page now (record c { restart_after_finish = false }))
          reset_all)
        (λ d. elim d.worker [
          | none ↦ (ok tt, [], d)
          | some w ↦
              if w.running && not waited
              then (ok tt, worker_request_stop ∷ [], record d { worker = some (interrupt w) })
              else (
                ok tt,
                worker_request_stop ∷ worker_delete_later ∷ [],
                record d { worker = none },
              )
        ])

  -- the part of `start` that follows the tests of the worker
  abbrev pub start_worker : ActivePpeMonitoringController F → Outcome F
  start_worker c =
      let (disposed, c') = dispose_finished_worker c in
      let (result, d) = reset_runtime py (record c' { restart_after_finish = false }) in
      elim result [
        | err x ↦ (err x, disposed, d)
        | ok done ↦ (
          ok tt,
          disposed ++ (show_monitoring_inference_loading ∷ worker_start ∷ []),
          record d { worker = some (record { running = true; interrupted = false }) },
        )
      ]

  -- `start`
  unfoldable pub start : ActivePage → ActivePpeMonitoringController F → Outcome F
  start page c = if not page.is_monitoring_active then (ok tt, [], c) else elim c.worker [
    | none ↦ start_worker c
    | some w ↦
        if w.running
        then (ok tt, [], (if w.interrupted then record c { restart_after_finish = true } else c))
        else start_worker c
  ]

  -- `_handle_failure`
  unfoldable pub handle_failure : ActivePpeMonitoringController F → Outcome F
  handle_failure c =
      let (result, c') = reset_runtime py c in
      elim result [
        | err x ↦ (err x, [], c')
        | ok done ↦ (ok tt, show_monitoring_inference_failure ∷ [], c')
      ]

  -- `_handle_model_ready`; a value that is no tuple of texts is `none`
  unfoldable pub handle_model_ready :
      ActivePage → Option (List Text) → ActivePpeMonitoringController F → Outcome F
  handle_model_ready page none c = handle_failure c
  handle_model_ready page (some value) c = elim page.operation [
    | none ↦ handle_failure c
    | some operation ↦
        let model_classes = map (normalize py) value in
        let (result, engine) =
          Stability.reset py c.stability_engine
            (required_classes model_classes operation.required_ppe) in
        elim result [
          | err x ↦ (err x, [], record c { stability_engine = engine })
          | ok done ↦ (
            ok tt,
            show_monitoring_inference_ready value ∷ [],
            record c {
              stability_engine = engine;
              model_classes = model_classes;
              model_ready = true;
            },
          )
        ]
  ]

  -- `_handle_finished`
  unfoldable pub handle_finished : ActivePage → ActivePpeMonitoringController F → Outcome F
  handle_finished page c =
      let (disposed, c') = dispose_finished_worker c in
      if c'.restart_after_finish && page.is_monitoring_active
      then (ok tt, disposed ++ (schedule_start ∷ []), record c' { restart_after_finish = false })
      else (ok tt, disposed, c')

module _ {F : Type 0} (fl : Floats F) (num : Arithmetic F) (py : Str) (str_int : ℕ → Text) where
  -- `__init__`, from the settings of the stability engine and of the tracker
  unfoldable pub monitoring_init :
      MonitoringSettings → ℕ → ℕ → F → F → F → ℕ → ℕ → Result (ActivePpeMonitoringController F)
  monitoring_init cfg window minimum present absent iou_threshold misses hits = do
    stability ← Stability.stability_init fl window minimum present absent
    alerts ← Alerts.engine_init cfg.alerts
    states ← Alerts.engine_init (safety_settings cfg)
    tracker ← Tracker.tracker_init num iou_threshold misses hits
    ok (record {
      stability_engine = stability;
      alert_engine = alerts;
      safety_state_engine = states;
      tracker = tracker;
      last_safety_state_sync_at = none;
      model_classes = [];
      ppe_violations = [];
      ergonomic_violations = [];
      risk_area_violations = [];
      model_ready = false;
      worker = none;
      restart_after_finish = false;
    })

  -- the assessment of a window and the violations that it gives, in `_handle_detections`
  abbrev pub assess :
      MonitoringSettings
      → ActivePage
      → Operation
      → PpeTrackingBatch F
      → List Text
      → ℕ
      → ActivePpeMonitoringController F
      → Outcome F
  assess cfg page operation tracked classes now c =
      let (snapshot, engine) = Stability.observe fl py c.stability_engine classes in
      let c' : ActivePpeMonitoringController F = record c { stability_engine = engine } in
      let overlay = update_monitoring_tracking_overlay tracked ∷ [] in
      elim (snapshot >>= λ s. Safety.evaluate py operation c.model_classes s) [
        | err x ↦ (err x, overlay, c')
        | ok assessment ↦
            let shown = overlay ++ (update_monitoring_assessment assessment ∷ []) in
            elim (violations_for py str_int assessment.requirements) [
              | err x ↦ (err x, shown, c')
              | ok violations ↦
                  and_then py (ok tt, shown, record c' { ppe_violations = violations })
                    (λ d. observe_alerts py cfg page now d)
            ]
      ]

  -- `_handle_detections`; a value that is no batch is `none`
  unfoldable pub handle_detections :
      MonitoringSettings
      → ActivePage
      → Option (PpeDetectionBatch F)
      → ℕ
      → ActivePpeMonitoringController F
      → Outcome F
  handle_detections cfg page none now c = (ok tt, [], c)
  handle_detections cfg page (some batch) now c = elim page.operation [
    | none ↦ (ok tt, [], c)
    | some operation ↦
        if not c.model_ready || not (is_some page.work_session)
        then (ok tt, [], c)
        else elim (Tracker.update num batch c.tracker) [
          | err x ↦ (err x, [], c)
          | ok (tracked, tracker) ↦
              assess cfg page operation tracked (map (λ d. d.class_name) batch.detections) now
                (record c { tracker = tracker })
        ]
  ]
