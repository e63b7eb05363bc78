-- ===== src/Control/Examples.antt =====
-- A release of 2identify_operador/app/controllers/ppe_inference_controller.py for an operation that
-- asks for a helmet, on whole numbers of seconds and on ratios rounded to nothing, a part and all.
use identify.Base.{
  ℕ, ◌+◌, ◌-◌, ◌*◌, ◌≡◌, ◌⊎◌, ◌==◌, refl, true, false, if◌then◌else◌, ltb, leb, none, some, List,
  [], ◌∷◌, arith, All, Text, codes, plain_str, normalize, text_eq, aware,
}
use Prim.Native.Nat.{◌/◌}
use mathlib.Core.Path.{subst}
use identify.Base.Floats.{Floats}
use identify.Base.Result.{ok}
use identify.Domain.Operation.{Operation, requirement_init}
use identify.Engine.Stability.Defs.{
  PpeStabilityEngine, PpeStabilitySnapshot, stability_init, confirmed_present, snapshot_init,
  decision_for, find_decision, frame_classes,
}
use identify.Engine.Stability.Laws.{IsValid}
use identify.Engine.Safety.Defs.{
  PpeSafetyAssessment, PpeRequirementSafetyState, compliant, evaluate, evaluate_requirements,
  evaluate_requirement, assessment_item_init, requirement_state, assessment_init, status_for,
  can_start_operation,
}
use identify.Engine.Safety.Laws.{Seen}
use identify.Services.Sessions.Defs.{SessionService, start}
use identify.Services.Sessions.Laws.{GoodIds, started_session}
use identify.Vision.Tracking.Defs.{Arithmetic}
use identify.Vision.Tracking.Tracker.{PpeDetectionBatch}
use identify.Control.Inference.Defs.{
  PpeInferenceController, Page, inference_init, show_operation_start_rejected,
  show_operation_start_authorized, operation_start_authorized, handle_operation_start_requested,
}
use identify.Control.Inference.Invariant.{IsOperation, IsEvidence, Evidence, IsGated, IsPage}
use identify.Control.Inference.Release.{authorization_of, IsReleasable, released, request_released}
use identify.Control.Inference.Slots.{
  Event, model_ready, detections_ready, operation_start_requested, slot, run,
  inference_init-run-IsGated,
}
use identify.Control.Inference.Total.{slot_returns}
use identify.Control.Start.{release_starts}

abbrev part_of : ℕ → ℕ → ℕ
part_of n m = if n == 0 then 0 else if ltb n m then 1 else 2

abbrev rounded : Floats ℕ
rounded = record {
  zero = 0;
  one = 2;
  le = leb;
  divide = part_of;
  le_trans = λ x y z h k. ground arith;
  le_total = λ x y h. ground arith;
  divide_none = λ m h. ground arith;
  divide_all = λ m h. ground arith;
  divide_mono = λ n k m h le. ground arith;
}

abbrev seconds : Arithmetic ℕ
seconds = record {
  zero = 0;
  one = 1;
  add = λ a b. a + b;
  sub = λ a b. a - b;
  mul = λ a b. a * b;
  div = λ a b. a / b;
  neg = λ a. 0;
  lt = ltb;
  le = leb;
  is_finite = λ a. true;
}

abbrev helmet : Text
helmet = codes "helmet"

abbrev welding : Operation
welding = record {
  operation_id = 3;
  name = codes "welding";
  required_ppe = record { ppe_id = 4; name = helmet; detection_class = some helmet } ∷ [];
  risk_area = none;
  active = true;
}

abbrev page : Page
page = record { operation = some welding; camera_active = true }

-- a window of one frame
abbrev engine : PpeStabilityEngine ℕ
engine = record {
  window_size = 1;
  minimum_samples = 1;
  present_ratio = 2;
  absent_ratio = 0;
  required_classes = helmet ∷ [];
  observations = (helmet ∷ []) ∷ [];
}

abbrev seen_helmet : PpeStabilitySnapshot ℕ
seen_helmet = record {
  decisions =
      record {
        detection_class = helmet;
        state = confirmed_present;
        observed_frames = 1;
        sample_count = 1;
        presence_ratio = 2;
      }
      ∷ [];
  sample_count = 1;
  window_size = 1;
}

abbrev assessment : PpeSafetyAssessment
assessment = record {
  operation_id = 3;
  operation_active = true;
  status = compliant;
  requirements =
      record {
        ppe_id = 4;
        name = helmet;
        detection_class = some helmet;
        state = PpeRequirementSafetyState.confirmed;
      }
      ∷ [];
  sample_count = 1;
  window_size = 1;
}

-- the controller after a frame with a helmet at the instant 7
abbrev controller : PpeInferenceController ℕ
controller = record {
  stability_engine = engine;
  assessment_max_age_seconds = 2;
  model_classes = helmet ∷ [];
  latest_assessment = some assessment;
  latest_assessment_at = some 7;
  start_authorized = false;
  expiry_active = true;
  model_ready = true;
  worker = some true;
}

welding-IsOperation : IsOperation plain_str welding
unfolding requirement_init normalize text_eq
welding-IsOperation = record { operation_id = refl; requirements = (refl, tt); distinct = refl }

page-IsPage : IsPage plain_str page
page-IsPage o h =
    let same : welding ≡ o = ground arith in
    subst (λ x. IsOperation plain_str x) same welding-IsOperation

evidence : IsEvidence plain_str welding (helmet ∷ []) seen_helmet assessment
unfolding requirement_init snapshot_init normalize text_eq evaluate evaluate_requirements
    evaluate_requirement assessment_item_init requirement_state assessment_init status_for
    decision_for find_decision frame_classes
evidence = record {
  built = record {
    operation_id = refl;
    requirements = (refl, tt);
    distinct = refl;
    snapshot = refl;
  };
  evaluated = refl;
}

engine-IsValid : IsValid rounded plain_str engine
unfolding normalize text_eq
engine-IsValid = record {
  minimum_positive = omega arith;
  minimum_fits = omega arith;
  absent_from_zero = refl;
  absent_below_present = refl;
  present_to_one = refl;
  classes = ((refl, refl), tt);
  distinct = refl;
  fits = omega arith;
}

controller-IsGated : IsGated rounded plain_str controller
unfolding can_start_operation
controller-IsGated = record {
  engine = engine-IsValid;
  gate = ((welding, helmet ∷ [], seen_helmet, evidence), refl, refl, refl);
}

request_released_example :
    (handle_operation_start_requested rounded seconds plain_str page 3 8 100 controller
      ≡ (ok tt, show_operation_start_rejected ∷ [], controller))
    ⊎ ((shown : Operation) × (a : PpeSafetyAssessment) × (at : ℕ) × IsReleasable seconds page
          controller 3 8 shown a at
        × Evidence ℕ plain_str a
        × (handle_operation_start_requested rounded seconds plain_str page 3 8 100 controller ≡ (
          ok tt,
          show_operation_start_authorized
              ∷ operation_start_authorized (authorization_of a 100)
              ∷ [],
          released controller,
        )))
request_released_example =
    request_released rounded seconds plain_str page 3 8 100 controller controller-IsGated

abbrev frame : PpeDetectionBatch ℕ
frame = record {
  detections =
      record {
        class_id = 0;
        class_name = helmet;
        confidence = 1;
        box = record { x1 = 5; y1 = 5; x2 = 15; y2 = 15 };
      }
      ∷ [];
  frame_width = 640;
  frame_height = 480;
  inference_milliseconds = 30;
}

abbrev events : List (Page × Event ℕ)
events =
    (page, model_ready (some (helmet ∷ [])))
    ∷ (page, detections_ready (some frame) 7)
    ∷ (page, operation_start_requested 3 8 100)
    ∷ []

abbrev first : PpeInferenceController ℕ
first = record {
  stability_engine = record engine { required_classes = []; observations = [] };
  assessment_max_age_seconds = 2;
  model_classes = [];
  latest_assessment = none;
  latest_assessment_at = none;
  start_authorized = false;
  expiry_active = false;
  model_ready = false;
  worker = none;
}

constructed : inference_init rounded seconds plain_str 1 1 2 0 2 ≡ ok first
unfolding inference_init stability_init
constructed = refl

inference_init-run-IsGated_example :
    IsGated rounded plain_str (run rounded seconds plain_str events first)
inference_init-run-IsGated_example =
    inference_init-run-IsGated rounded seconds plain_str 1 1 2 0 2 events {c = first} constructed
      (page-IsPage, (page-IsPage, (page-IsPage, tt)))

slot_returns_example :
    (slot rounded seconds plain_str page (detections_ready (some frame) 9) controller).0 ≡ ok tt
slot_returns_example =
    slot_returns rounded seconds plain_str page (detections_ready (some frame) 9) controller
      page-IsPage controller-IsGated

releasable : IsReleasable seconds page controller 3 8 welding assessment 7
unfolding can_start_operation
releasable = record {
  shows = refl;
  kept = refl;
  dated = refl;
  ready = refl;
  unreleased = refl;
  camera = refl;
  same_operation = refl;
  same_assessed = refl;
  compliant = refl;
  fresh = refl;
}

abbrev idle : SessionService
idle = record { maximum_authorization_age = 30; current = none; last_finished = none }

good_ids : GoodIds 2 welding
good_ids = record { operator = refl; operation_id = refl; camera = refl; area = refl }

release_starts_example :
    (start idle 2 welding (authorization_of assessment 100) (aware 110) 1 ≡ (
      ok (started_session 2 welding (authorization_of assessment 100) 110 1),
      record idle {
        current = some (started_session 2 welding (authorization_of assessment 100) 110 1);
      },
    ))
    × (welding.operation_id ≡ welding.operation_id)
    × All (Seen plain_str (helmet ∷ []) seen_helmet) welding.required_ppe
release_starts_example =
    release_starts seconds plain_str page controller 3 8 7 welding welding assessment (helmet ∷ [])
      seen_helmet idle 2 100 110 1 releasable evidence refl (omega arith) (omega arith) good_ids
