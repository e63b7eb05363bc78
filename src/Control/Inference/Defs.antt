-- ===== src/Control/Inference/Defs.antt =====
-- 2identify_operador/app/controllers/ppe_inference_controller.py. A slot that Qt calls is a handler
-- from the state to a result, the effects on the page, the worker and the listeners, and the state
-- after it; the page gives the operation that it shows and whether its camera is active. The worker
-- is its answer to `isRunning`; `F` is the type of floating-point numbers, and the logging is left
-- out.
use identify.Base.{
  ℕ, Bool, true, false, not, ◌||◌, ◌&&◌, ◌==◌, Option, none, some, List, [], ◌∷◌, ◌++◌, map, Text,
  Str, normalize, aware, if◌then◌else◌,
}
use identify.Base.Floats.{Floats}
use identify.Base.Result.{Result, ok, err, ◌>>=◌}
use identify.Domain.Operation.{Operation, PpeRequirement, mem_text}
use identify.Domain.WorkSession.{OperationStartAuthorization, authorization_init}
use identify.Engine.Stability.Defs.{PpeStabilityEngine, stability_init, reset, observe}
use identify.Engine.Safety.Defs.{PpeSafetyAssessment, can_start_operation, evaluate}
use identify.Vision.Tracking.Defs.{Arithmetic}
use identify.Vision.Tracking.Tracker.{PpeDetectionBatch}

pub record PpeInferenceController (F : Type 0) : Type 0 where
  pub stability_engine : PpeStabilityEngine F
  pub assessment_max_age_seconds : F
  pub model_classes : List Text
  pub latest_assessment : Option PpeSafetyAssessment
  pub latest_assessment_at : Option F
  pub start_authorized : Bool
  -- whether `_assessment_expiry_timer` is active
  pub expiry_active : Bool
  pub model_ready : Bool
  pub worker : Option Bool

pub record Page : Type 0 where
  pub operation : Option Operation
  pub camera_active : Bool

pub data Effect (F : Type 0) : Type 0 where
  show_inference_loading show_inference_failure : Effect F
  show_inference_ready : List Text → Effect F
  update_ppe_detection_overlay : PpeDetectionBatch F → Effect F
  update_ppe_safety : PpeSafetyAssessment → Effect F
  show_operation_start_rejected show_operation_start_authorized : Effect F
  worker_start worker_request_stop worker_delete_later : Effect F
  operation_start_authorized : OperationStartAuthorization ℕ → Effect F

-- what a slot does: its end, its effects, and the state that it leaves
abbrev pub Outcome : Type 0 → Type 0
Outcome F = Result (Unit {0}) × List (Effect F) × PpeInferenceController F

-- the detection classes of the requirements that the model knows
unfoldable pub required_classes : List Text → List PpeRequirement → List Text
required_classes model_classes [] = []
required_classes model_classes (r ∷ rs) = elim r.detection_class [
  | none ↦ required_classes model_classes rs
  | some c ↦
      if mem_text c model_classes
      then c ∷ required_classes model_classes rs
      else required_classes model_classes rs
]

-- the classes that a stability window follows for the operation of the page
unfoldable pub required_for : Page → List Text → List Text
required_for page model_classes = elim page.operation [
  | none ↦ []
  | some operation ↦ required_classes model_classes operation.required_ppe
]

module _ {F : Type 0} where
  -- `_dispose_finished_worker`
  unfoldable pub dispose_finished_worker :
      PpeInferenceController F → List (Effect F) × PpeInferenceController F
  dispose_finished_worker c = elim c.worker [
    | none ↦ ([], c)
    | some running ↦
        if running then ([], c) else (worker_delete_later ∷ [], record c { worker = none })
  ]

  -- the writes that `start`, `stop`, `shutdown` and `_handle_inference_failure` share, without the
  -- reset of the engine
  abbrev pub cleared : PpeInferenceController F → PpeInferenceController F
  cleared c = record c {
    model_ready = false;
    model_classes = [];
    latest_assessment = none;
    latest_assessment_at = none;
    start_authorized = false;
    expiry_active = false;
  }

  -- `_handle_finished`
  unfoldable pub handle_finished : PpeInferenceController F → Outcome F
  handle_finished c = let (effects, c') = dispose_finished_worker c in (ok tt, effects, c')

  -- `_expire_assessment`, when the timer, which is single shot, has run down
  unfoldable pub expire_assessment : PpeInferenceController F → Outcome F
  expire_assessment c = elim c.latest_assessment [
    | none ↦ (ok tt, [], record c { expiry_active = false })
    | some assessment ↦
        if can_start_operation assessment
        then (
          ok tt,
          show_operation_start_rejected ∷ [],
          record c { latest_assessment = none; latest_assessment_at = none; expiry_active = false },
        )
        else (ok tt, [], record c { expiry_active = false })
  ]

module _ {F : Type 0} (fl : Floats F) (num : Arithmetic F) (py : Str) where
  -- `__init__`
  unfoldable pub inference_init : ℕ → ℕ → F → F → F → Result (PpeInferenceController F)
  inference_init window minimum present absent max_age = do
    engine ← stability_init fl window minimum present absent
    ok (record {
      stability_engine = engine;
      assessment_max_age_seconds = max_age;
      model_classes = [];
      latest_assessment = none;
      latest_assessment_at = none;
      start_authorized = false;
      expiry_active = false;
      model_ready = false;
      worker = none;
    })

  -- those writes, then `self._stability_engine.reset()`
  unfoldable pub clear : PpeInferenceController F → Result (Unit {0}) × PpeInferenceController F
  clear c =
      let (result, engine) = reset py c.stability_engine [] in
      (result, record (cleared c) { stability_engine = engine })

  -- a call that may raise, and the effects and the state of what follows it
  abbrev pub then_do :
      Result (Unit {0}) × PpeInferenceController F
      → List (Effect F)
      → (PpeInferenceController F → List (Effect F) × PpeInferenceController F)
      → Outcome F
  then_do (err x, c) before after = (err x, before, c)
  then_do (ok done, c) before after = let (effects, c') = after c in (ok tt, before ++ effects, c')

  -- `start`
  unfoldable pub start : PpeInferenceController F → Outcome F
  start c = elim c.worker [
    | none ↦
        then_do (clear c) []
          (λ d. (show_inference_loading ∷ worker_start ∷ [], record d { worker = some true }))
    | some running ↦
        if running
        then (ok tt, [], c)
        else (let (disposed, c') = dispose_finished_worker c in
            then_do (clear c') disposed
              (λ d. (show_inference_loading ∷ worker_start ∷ [], record d { worker = some true })))
  ]

  -- `stop`
  unfoldable pub stop : PpeInferenceController F → Outcome F
  stop c = then_do (clear c) [] (λ d. elim d.worker [
    | none ↦ ([], d)
    | some running ↦ ((if running then worker_request_stop ∷ [] else []), d)
  ])

  -- `shutdown`; `waited` is the answer of `wait`, after which the thread has ended
  unfoldable pub shutdown : Bool → PpeInferenceController F → Outcome F
  shutdown waited c = then_do (clear c) [] (λ d. elim d.worker [
    | none ↦ ([], d)
    | some running ↦
        if running && not waited
        then (worker_request_stop ∷ [], d)
        else (worker_request_stop ∷ worker_delete_later ∷ [], record d { worker = none })
  ])

  -- `_handle_inference_failure`
  unfoldable pub handle_inference_failure : PpeInferenceController F → Outcome F
  handle_inference_failure c = then_do (clear c) [] (λ d. (show_inference_failure ∷ [], d))

  -- `_handle_model_ready`; a value that is no tuple of texts is `none`
  unfoldable pub handle_model_ready :
      Page → Option (List Text) → PpeInferenceController F → Outcome F
  handle_model_ready page none c = handle_inference_failure c
  handle_model_ready page (some value) c =
      let model_classes = map (normalize py) value in
      let (result, engine) = reset py c.stability_engine (required_for page model_classes) in
      then_do (result, record c { stability_engine = engine }) []
        (λ d. (
          show_inference_ready value ∷ [],
          record d {
            model_classes = model_classes;
            latest_assessment = none;
            latest_assessment_at = none;
            start_authorized = false;
            expiry_active = false;
            model_ready = true;
          },
        ))

  -- what follows the calls of the two engines in `_handle_detections`
  abbrev pub store_assessment :
      PpeInferenceController F → PpeDetectionBatch F → F → Result PpeSafetyAssessment → Outcome F
  store_assessment c batch now (err x) = (err x, update_ppe_detection_overlay batch ∷ [], c)
  store_assessment c batch now (ok assessment) = (
    ok tt,
    update_ppe_detection_overlay batch ∷ update_ppe_safety assessment ∷ [],
    record c {
      latest_assessment = some assessment;
      latest_assessment_at = some now;
      expiry_active = can_start_operation assessment;
    },
  )

  -- `_handle_detections`; a value that is no batch is `none`, and `now` is what `monotonic` returns
  unfoldable pub handle_detections :
      Page → Option (PpeDetectionBatch F) → F → PpeInferenceController F → Outcome F
  handle_detections page none now c = (ok tt, [], c)
  handle_detections page (some batch) now c =
      if not c.model_ready || c.start_authorized then (ok tt, [], c) else elim page.operation [
        | none ↦ (ok tt, [], c)
        | some operation ↦
            let (snapshot, engine) =
              observe fl py c.stability_engine (map (λ d. d.class_name) batch.detections) in
            store_assessment (record c { stability_engine = engine }) batch now
              (snapshot >>= λ s. evaluate py operation c.model_classes s)
      ]

  -- the values that a request needs
  abbrev pub evidence_of :
      Page → PpeInferenceController F → Option (Operation × PpeSafetyAssessment × F)
  evidence_of page c = elim page.operation [
    | none ↦ none
    | some operation ↦ elim c.latest_assessment [
      | none ↦ none
      | some assessment ↦ elim c.latest_assessment_at [
        | none ↦ none
        | some at ↦ some (operation, assessment, at)
      ]
    ]
  ]

  -- the tests of `_handle_operation_start_requested` that reject a request
  unfoldable pub refuses :
      Page → PpeInferenceController F → ℕ → F → Operation → PpeSafetyAssessment → F → Bool
  refuses page c operation_id now operation assessment at =
      not c.model_ready
      || c.start_authorized
      || not page.camera_active
      || not (operation.operation_id == operation_id)
      || not (assessment.operation_id == operation_id)
      || not (can_start_operation assessment)
      || num.lt c.assessment_max_age_seconds (num.sub now at)

  -- what follows the construction of the authorization
  abbrev pub release : PpeInferenceController F → Result (OperationStartAuthorization ℕ) → Outcome F
  release c (err x) = (err x, [], c)
  release c (ok authorization) = (
    ok tt,
    show_operation_start_authorized ∷ operation_start_authorized authorization ∷ [],
    record c { latest_assessment = none; latest_assessment_at = none; expiry_active = false },
  )

  -- `_handle_operation_start_requested`; `now` is what `monotonic` returns, and `utc` is the instant
  -- of `datetime.now(UTC)`
  unfoldable pub handle_operation_start_requested :
      Page → ℕ → F → ℕ → PpeInferenceController F → Outcome F
  handle_operation_start_requested page operation_id now utc c = elim (evidence_of page c) [
    | none ↦ (ok tt, show_operation_start_rejected ∷ [], c)
    | some (operation, assessment, at) ↦
        if refuses page c operation_id now operation assessment at
        then (ok tt, show_operation_start_rejected ∷ [], c)
        else release (record c { start_authorized = true })
            (authorization_init (record {
              operation_id = operation_id;
              verified_ppe_ids = map (λ item. item.ppe_id) assessment.requirements;
              sample_count = assessment.sample_count;
              window_size = assessment.window_size;
              authorized_at = aware utc;
            }))
  ]
