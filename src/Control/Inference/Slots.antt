-- ===== src/Control/Inference/Slots.antt =====
-- The slots of 2identify_operador/app/controllers/ppe_inference_controller.py as one step, and the
-- runs of them.
use identify.Base.{
  ℕ, ◌≡◌, refl, sym, Bool, true, false, not, ◌||◌, Option, none, some, List, [], ◌∷◌, map, arith,
  All, Bool-cases, Option-cases, inl, inr, Text, Str,
}
use mathlib.Core.Path.{subst}
use mathlib.Core.Option
use identify.Base.Floats.{Floats}
use identify.Base.Result.{Result, ok, err, Result-cases, ◌>>=◌}
use identify.Domain.Operation.{Operation}
use identify.Engine.Stability.Defs.{PpeStabilityEngine, stability_init, observe}
use identify.Engine.Stability.Laws.{IsValid, observe_lem}
use identify.Engine.Stability.Reset.{stability_init-IsValid}
use identify.Engine.Safety.Defs.{PpeSafetyAssessment, evaluate}
use identify.Vision.Tracking.Defs.{Arithmetic}
use identify.Vision.Tracking.Tracker.{PpeDetectionBatch}
use identify.Control.Inference.Defs.{
  PpeInferenceController, Page, Outcome, start, stop, shutdown, handle_inference_failure,
  handle_model_ready, store_assessment, handle_detections, handle_operation_start_requested,
  inference_init, expire_assessment, handle_finished,
}
use identify.Control.Inference.Release.{request-IsGated}
use identify.Control.Inference.Invariant.{
  IsOperation, Evidence, IsGated, IsPage, observe-snapshot, start-IsGated, stop-IsGated,
  shutdown-IsGated, failure-IsGated, model_ready-IsGated, expire-IsGated, finished-IsGated,
}

-- The signals that the controller is connected to.
pub data Event (F : Type 0) : Type 0 where
  camera_start_requested camera_stop_requested timeout inference_failed finished : Event F
  closed : Bool → Event F
  worker_ended : Event F
  model_ready : Option (List Text) → Event F
  detections_ready : Option (PpeDetectionBatch F) → F → Event F
  operation_start_requested : ℕ → F → ℕ → Event F

module _ {F : Type 0} (fl : Floats F) (num : Arithmetic F) (py : Str) where
  -- the slot of a signal; the thread of a worker ends by itself
  unfoldable pub slot : Page → Event F → PpeInferenceController F → Outcome F
  slot page camera_start_requested c = start fl num py c
  slot page camera_stop_requested c = stop fl num py c
  slot page timeout c = expire_assessment c
  slot page inference_failed c = handle_inference_failure fl num py c
  slot page finished c = handle_finished c
  slot page (closed waited) c = shutdown fl num py waited c
  slot page worker_ended c = (ok tt, [], record c { worker = Option.map (λ b. false) c.worker })
  slot page (model_ready value) c = handle_model_ready fl num py page value c
  slot page (detections_ready value now) c = handle_detections fl num py page value now c
  slot page (operation_start_requested operation_id now utc) c =
      handle_operation_start_requested fl num py page operation_id now utc c

  -- the slots in the order of their signals; Qt goes on after an exception in one
  unfoldable pub run : List (Page × Event F) → PpeInferenceController F → PpeInferenceController F
  run [] c = c
  run ((page, event) ∷ events) c = run events (slot page event c).2

  store-IsGated :
      (c : PpeInferenceController F) (batch : PpeDetectionBatch F) (now : F)
      (result : Result PpeSafetyAssessment)
      → IsGated fl py c
      → c.model_ready ≡ true
      → c.start_authorized ≡ false
      → ((a : PpeSafetyAssessment) → result ≡ ok a → Evidence F py a)
      → IsGated fl py (store_assessment fl num py c batch now result).2
  store-IsGated c batch now (err x) h ready unreleased k = h
  store-IsGated c batch now (ok a) h ready unreleased k = record {
    engine = h.engine;
    gate = (k a refl, ready, unreleased, refl);
  }

  -- What an assessment of a window of frames rests on.
  pub evaluate-Evidence :
      (o : Operation) (classes : List Text) (e : PpeStabilityEngine F) (observed : List Text)
      → IsOperation py o
      → (a : PpeSafetyAssessment)
      → ((observe fl py e observed).0 >>= λ s. evaluate py o classes s) ≡ ok a
      → Evidence F py a
  evaluate-Evidence o classes e observed h a k = elim (Result-cases (observe fl py e observed).0) [
    | inl (x, raised) ↦ absurd (ground arith)
    | inr (s, returned) ↦ (
      o,
      classes,
      s,
      record {
        built = record {
          operation_id = h.operation_id;
          requirements = h.requirements;
          distinct = h.distinct;
          snapshot = observe-snapshot fl num py e observed returned;
        };
        evaluated = ground arith;
      },
    )
  ]

  detections-IsGated :
      (page : Page) (value : Option (PpeDetectionBatch F)) (now : F) (c : PpeInferenceController F)
      → IsPage py page
      → IsGated fl py c
      → IsGated fl py (handle_detections fl num py page value now c).2
  unfolding handle_detections
  detections-IsGated page none now c p h = h
  detections-IsGated page (some batch) now c p h =
      elim (Bool-cases (not c.model_ready || c.start_authorized)) [
        | inl ignored ↦ rw (handle_detections, ignored) h
        | inr observed ↦ elim (Option-cases page.operation) [
          | inl blank ↦ rw (handle_detections, observed, blank) h
          | inr (o, shows) ↦
              let classes = map (λ d. d.class_name) batch.detections in
              let (seen, valid) = observe_lem fl py c.stability_engine classes h.engine in
              let after : PpeInferenceController F = record c {
                stability_engine = (observe fl py c.stability_engine classes).1;
              } in
              rw (handle_detections, observed, shows)
                (store-IsGated after batch now
                  ((observe fl py c.stability_engine classes).0 >>= λ s.
                    evaluate py o c.model_classes s)
                  (record {
                    engine = subst (λ x. IsValid fl py x.1) (sym seen) valid;
                    gate = h.gate;
                  })
                  (ground arith) (ground arith)
                  (evaluate-Evidence o c.model_classes c.stability_engine classes (p o shows)))
        ]
      ]

  pub slot-IsGated :
      (page : Page) (event : Event F) (c : PpeInferenceController F)
      → IsPage py page
      → IsGated fl py c
      → IsGated fl py (slot page event c).2
  unfolding slot
  slot-IsGated page camera_start_requested c p h = start-IsGated fl num py c h
  slot-IsGated page camera_stop_requested c p h = stop-IsGated fl num py c h
  slot-IsGated page timeout c p h = expire-IsGated fl num py c h
  slot-IsGated page inference_failed c p h = failure-IsGated fl num py c h
  slot-IsGated page finished c p h = finished-IsGated fl num py c h
  slot-IsGated page (closed waited) c p h = shutdown-IsGated fl num py waited c h
  slot-IsGated page worker_ended c p h = record { engine = h.engine; gate = h.gate }
  slot-IsGated page (model_ready value) c p h = model_ready-IsGated fl num py page value c h
  slot-IsGated page (detections_ready value now) c p h = detections-IsGated page value now c p h
  slot-IsGated page (operation_start_requested operation_id now utc) c p h =
      request-IsGated fl num py page operation_id now utc c h

  run-IsGated :
      (events : List (Page × Event F)) (c : PpeInferenceController F)
      → All (λ e. IsPage py e.0) events
      → IsGated fl py c
      → IsGated fl py (run events c)
  unfolding run
  run-IsGated [] c p h = h
  run-IsGated ((page, event) ∷ events) c p h =
      run-IsGated events (slot page event c).2 p.1 (slot-IsGated page event c p.0 h)

  inference_init-IsGated :
      (window minimum : ℕ) (present absent max_age : F) {c : PpeInferenceController F}
      → inference_init fl num py window minimum present absent max_age ≡ ok c
      → IsGated fl py c
  unfolding inference_init
  inference_init-IsGated window minimum present absent max_age {c = c} h =
      elim (Result-cases (stability_init fl window minimum present absent)) [
        | inl (x, raised) ↦ absurd (ground arith)
        | inr (e, made) ↦
            let first : PpeInferenceController F = record {
              stability_engine = e;
              assessment_max_age_seconds = max_age;
              model_classes = [];
              latest_assessment = none;
              latest_assessment_at = none;
              start_authorized = false;
              expiry_active = false;
              model_ready = false;
              worker = none;
            } in
            let same : first ≡ c = ground arith in
            subst (λ x. IsGated fl py x) same
              (record {
                engine = stability_init-IsValid fl py window minimum present absent made;
                gate = refl;
              })
      ]

  -- Whatever signals arrive in whatever order, with pages that show no operation or one that the
  -- constructors built, a constructed controller keeps a valid window engine, and keeps an
  -- assessment only with its instant, on the evidence of an operation and a window of frames, while
  -- the model is ready and nothing has been released, with its timer active exactly if the
  -- assessment lets an operation start.
  pub inference_init-run-IsGated :
      (window minimum : ℕ) (present absent max_age : F) (events : List (Page × Event F))
      {c : PpeInferenceController F}
      → inference_init fl num py window minimum present absent max_age ≡ ok c
      → All (λ e. IsPage py e.0) events
      → IsGated fl py (run events c)
  inference_init-run-IsGated window minimum present absent max_age events {c = c} h p =
      run-IsGated events c p (inference_init-IsGated window minimum present absent max_age h)
