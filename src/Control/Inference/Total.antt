-- ===== src/Control/Inference/Total.antt =====
-- The ends of the slots of 2identify_operador/app/controllers/ppe_inference_controller.py.
use identify.Base.{
  ◌≡◌, refl, ap, ◌∙◌, false, not, ◌||◌, Option, none, some, List, [], ◌∷◌, map, arith, All,
  Bool-cases, Option-cases, inl, inr, is_empty, Text, Str, normalize,
}
use identify.Base.Floats.{Floats}
use identify.Base.Result.{Result, ok, err, ◌>>=◌}
use identify.Domain.Operation.{Operation, PpeRequirement, requirement_init, mem_text}
use identify.Engine.Stability.Defs.{PpeStabilityEngine, observe}
use identify.Engine.Stability.Laws.{IsValid, observe_lem}
use identify.Engine.Stability.Reset.{reset_returns}
use identify.Engine.Safety.Defs.{PpeSafetyAssessment, can_start_operation, evaluate}
use identify.Engine.Safety.Laws.{evaluate_total}
use identify.Vision.Tracking.Defs.{Arithmetic}
use identify.Vision.Tracking.Tracker.{PpeDetectionBatch}
use identify.Control.Inference.Defs.{
  PpeInferenceController, Page, Effect, start, stop, shutdown, handle_inference_failure,
  handle_model_ready, handle_detections, clear, then_do, required_classes, required_for,
  expire_assessment, handle_finished, dispose_finished_worker,
}
use identify.Control.Inference.Invariant.{IsOperation, IsGated, IsPage, observe-snapshot}
use identify.Control.Inference.Release.{request_released}
use identify.Control.Inference.Slots.{
  Event, camera_start_requested, camera_stop_requested, timeout, inference_failed, finished, closed,
  worker_ended, model_ready, detections_ready, operation_start_requested, slot,
}

module _ (py : Str) where
  abbrev NotBlank : List Text → Type 0
  NotBlank cs = All (λ c. is_empty (normalize py c) ≡ false) cs

  class_not_blank :
      (r : PpeRequirement) (c : Text)
      → requirement_init py r ≡ ok r
      → r.detection_class ≡ some c
      → is_empty (normalize py c) ≡ false
  unfolding requirement_init
  class_not_blank r c h k = ground (arith, h, k)

  required_classes-NotBlank :
      (classes : List Text) (rs : List PpeRequirement)
      → All (λ r. requirement_init py r ≡ ok r) rs
      → NotBlank (required_classes classes rs)
  unfolding required_classes
  required_classes-NotBlank classes [] h = tt
  required_classes-NotBlank classes (r ∷ rs) h = elim (Option-cases r.detection_class) [
    | inl unmapped ↦ rw (required_classes, unmapped) (required_classes-NotBlank classes rs h.1)
    | inr (c, mapped) ↦ elim (Bool-cases (mem_text c classes)) [
      | inl known ↦
          rw (required_classes, mapped, known)
            (class_not_blank r c h.0 mapped, required_classes-NotBlank classes rs h.1)
      | inr unknown ↦
          rw (required_classes, mapped, unknown) (required_classes-NotBlank classes rs h.1)
    ]
  ]

  required_for-NotBlank :
      (page : Page) (classes : List Text) → IsPage py page → NotBlank (required_for page classes)
  unfolding required_for
  required_for-NotBlank page classes p = elim (Option-cases page.operation) [
    | inl blank ↦ rw (required_for, blank) tt
    | inr (o, shows) ↦
        rw (required_for, shows)
          (required_classes-NotBlank classes o.required_ppe (p o shows).requirements)
  ]

module _ {F : Type 0} (fl : Floats F) (num : Arithmetic F) (py : Str) where
  then_do_returns :
      (called : Result (Unit {0}) × PpeInferenceController F) (before : List (Effect F))
      (after : PpeInferenceController F → List (Effect F) × PpeInferenceController F)
      → called.0 ≡ ok tt
      → (then_do fl num py called before after).0 ≡ ok tt
  then_do_returns (err x, c) before after h = absurd (ground arith)
  then_do_returns (ok done, c) before after h = refl

  clear_returns : (c : PpeInferenceController F) → (clear fl num py c).0 ≡ ok tt
  unfolding clear
  clear_returns c = reset_returns py c.stability_engine [] tt

  start_returns : (c : PpeInferenceController F) → (start fl num py c).0 ≡ ok tt
  unfolding start
  start_returns c = elim (Option-cases c.worker) [
    | inl idle ↦ rw (start, idle) (then_do_returns (clear fl num py c) [] _ (clear_returns c))
    | inr (running, busy) ↦ elim (Bool-cases running) [
      | inl alive ↦ rw (start, busy, alive) refl
      | inr ended ↦
          rw (start, busy, ended)
            (then_do_returns (clear fl num py (dispose_finished_worker c).1) _ _
              (clear_returns (dispose_finished_worker c).1))
    ]
  ]

  -- A window of frames with a frame more is assessed.
  pub assesses :
      (o : Operation) (classes : List Text) (e : PpeStabilityEngine F) (observed : List Text)
      → IsOperation py o
      → IsValid fl py e
      → (a : PpeSafetyAssessment) × (((observe fl py e observed).0 >>= λ s. evaluate py o classes s)
          ≡ ok a)
  assesses o classes e observed h v =
      let (seen, valid) = observe_lem fl py e observed v in
      let returned = ap (λ x. x.0) seen in
      let total = evaluate_total py classes _ o (record {
        operation_id = h.operation_id;
        requirements = h.requirements;
        distinct = h.distinct;
        snapshot = observe-snapshot fl num py e observed returned;
      }) in
      (_, ap (λ r. r >>= λ s. evaluate py o classes s) returned ∙ total)

  detections_return :
      (page : Page) (value : Option (PpeDetectionBatch F)) (now : F) (c : PpeInferenceController F)
      → IsPage py page
      → IsGated fl py c
      → (handle_detections fl num py page value now c).0 ≡ ok tt
  unfolding handle_detections
  detections_return page none now c p h = refl
  detections_return page (some batch) now c p h =
      elim (Bool-cases (not c.model_ready || c.start_authorized)) [
        | inl ignored ↦ rw (handle_detections, ignored) refl
        | inr observed ↦ elim (Option-cases page.operation) [
          | inl blank ↦ rw (handle_detections, observed, blank) refl
          | inr (o, shows) ↦
              let classes = map (λ d. d.class_name) batch.detections in
              let (a, e) =
                assesses o c.model_classes c.stability_engine classes (p o shows) h.engine in
              rw (handle_detections, observed, shows, e) refl
        ]
      ]

  expire_returns : (c : PpeInferenceController F) → (expire_assessment c).0 ≡ ok tt
  unfolding expire_assessment
  expire_returns c = elim (Option-cases c.latest_assessment) [
    | inl nothing ↦ rw (expire_assessment, nothing) refl
    | inr (a, kept) ↦ elim (Bool-cases (can_start_operation a)) [
      | inl compliant ↦ rw (expire_assessment, kept, compliant) refl
      | inr other ↦ rw (expire_assessment, kept, other) refl
    ]
  ]

  -- In a gated state no slot of the controller raises, when the page shows no operation or one that
  -- the constructors built.
  pub slot_returns :
      (page : Page) (event : Event F) (c : PpeInferenceController F)
      → IsPage py page
      → IsGated fl py c
      → (slot fl num py page event c).0 ≡ ok tt
  unfolding slot stop shutdown handle_inference_failure handle_model_ready handle_finished
  slot_returns page camera_start_requested c p h = start_returns c
  slot_returns page camera_stop_requested c p h =
      then_do_returns (clear fl num py c) [] _ (clear_returns c)
  slot_returns page timeout c p h = expire_returns c
  slot_returns page inference_failed c p h =
      then_do_returns (clear fl num py c) [] _ (clear_returns c)
  slot_returns page finished c p h = refl
  slot_returns page (closed waited) c p h =
      then_do_returns (clear fl num py c) [] _ (clear_returns c)
  slot_returns page worker_ended c p h = refl
  slot_returns page (model_ready none) c p h =
      then_do_returns (clear fl num py c) [] _ (clear_returns c)
  slot_returns page (model_ready (some value)) c p h = then_do_returns _ [] _ (
      reset_returns py c.stability_engine (required_for page (map (normalize py) value))
        (required_for-NotBlank py page (map (normalize py) value) p))
  slot_returns page (detections_ready value now) c p h = detections_return page value now c p h
  slot_returns page (operation_start_requested operation_id now utc) c p h =
      elim (request_released fl num py page operation_id now utc c h) [
        | inl rejected ↦ ap (λ x. x.0) rejected
        | inr (o, a, at, terms, evidence, e) ↦ ap (λ x. x.0) e
      ]
