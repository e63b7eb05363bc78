-- ===== src/Engine/Safety/Defs.antt =====
-- 2identify_operador/app/engine/ppe_safety.py. A `frozenset` of class names or a set of states is a
-- list, which is only asked for members.
use identify.Base.{
  ℕ, Bool, true, false, not, ◌&&◌, ◌||◌, Option, none, some, List, [], ◌∷◌, map, any, all, keep,
  ltb, leb, if◌then◌else◌, is_empty, opt_all, Text, Str, normalize,
}
use identify.Base.Result.{Result, ok, value_error, ◌>>=◌, ◌>>◌, raise_if}
use identify.Domain.Alert.{is_positive}
use identify.Domain.Operation.{Operation, PpeRequirement, mem_text}
use identify.Domain.WorkSession.{unique}
use identify.Engine.Stability.Defs.{
  PpeStabilityState, PpeStabilitySnapshot, decision_for, frame_classes,
}
use mathlib.Core.Option

pub data PpeRequirementSafetyState : Type 0 where
  collecting confirmed absent unstable unmapped : PpeRequirementSafetyState

pub data PpeSafetyStatus : Type 0 where
  pending blocked compliant : PpeSafetyStatus

pub record PpeRequirementAssessment : Type 0 where
  pub ppe_id : ℕ
  pub name : Text
  pub detection_class : Option Text
  pub state : PpeRequirementSafetyState

-- `PpeRequirementAssessment.__post_init__`
unfoldable pub assessment_item_init :
    Str → PpeRequirementAssessment → Result PpeRequirementAssessment
assessment_item_init py a = do
  let name = py.strip a.name
  let detection_class = Option.map (normalize py) a.detection_class
  raise_if (not (is_positive a.ppe_id)) value_error
  raise_if (is_empty name) value_error
  raise_if (not (opt_all (λ c. not (is_empty c)) detection_class)) value_error
  ok (record a { name = name; detection_class = detection_class })

pub record PpeSafetyAssessment : Type 0 where
  pub operation_id : ℕ
  pub operation_active : Bool
  pub status : PpeSafetyStatus
  pub requirements : List PpeRequirementAssessment
  pub sample_count : ℕ
  pub window_size : ℕ

abbrev pub blocks : PpeRequirementSafetyState → Bool
blocks absent = true
blocks unmapped = true
blocks _ = false

abbrev pub is_confirmed : PpeRequirementSafetyState → Bool
is_confirmed confirmed = true
is_confirmed _ = false

abbrev pub no_items : List PpeRequirementAssessment → Bool
no_items [] = true
no_items (x ∷ xs) = false

-- `_status_for`, which `_expected_status` repeats
unfoldable pub status_for : Bool → List PpeRequirementAssessment → PpeSafetyStatus
status_for operation_active requirements =
    if not operation_active || no_items requirements
    then blocked
    else if any (λ item. blocks item.state) requirements
    then blocked
    else if all (λ item. is_confirmed item.state) requirements
    then compliant
    else pending

abbrev pub same_status : PpeSafetyStatus → PpeSafetyStatus → Bool
same_status pending pending = true
same_status blocked blocked = true
same_status compliant compliant = true
same_status _ _ = false

-- `PpeSafetyAssessment.__post_init__`
unfoldable pub assessment_init : PpeSafetyAssessment → Result PpeSafetyAssessment
assessment_init a = do
  raise_if (not (is_positive a.operation_id)) value_error
  raise_if (ltb a.window_size 1 || not (leb 1 a.sample_count && leb a.sample_count a.window_size))
      value_error
  raise_if (not (unique (map (λ item. item.ppe_id) a.requirements))) value_error
  raise_if (not (same_status a.status (status_for a.operation_active a.requirements))) value_error
  ok a

-- `can_start_operation`
unfoldable pub can_start_operation : PpeSafetyAssessment → Bool
can_start_operation a = same_status a.status compliant

-- the names of `absent_requirement_names` and of `unmapped_requirement_names`
abbrev pub is_absent : PpeRequirementSafetyState → Bool
is_absent absent = true
is_absent _ = false

abbrev pub is_unmapped : PpeRequirementSafetyState → Bool
is_unmapped unmapped = true
is_unmapped _ = false

unfoldable pub absent_requirement_names : PpeSafetyAssessment → List Text
absent_requirement_names a =
    map (λ item. item.name) (keep (λ item. is_absent item.state) a.requirements)

unfoldable pub unmapped_requirement_names : PpeSafetyAssessment → List Text
unmapped_requirement_names a =
    map (λ item. item.name) (keep (λ item. is_unmapped item.state) a.requirements)

-- the dictionary `states` of `_evaluate_requirement`
abbrev pub safety_state : PpeStabilityState → PpeRequirementSafetyState
safety_state PpeStabilityState.collecting = collecting
safety_state PpeStabilityState.confirmed_present = confirmed
safety_state PpeStabilityState.confirmed_absent = absent
safety_state PpeStabilityState.unstable = unstable

module _ {F : Type 0} (py : Str) where
  -- the state that `_evaluate_requirement` assigns
  unfoldable pub requirement_state :
      Option Text → List Text → PpeStabilitySnapshot F → PpeRequirementSafetyState
  requirement_state none model_classes snapshot = unmapped
  requirement_state (some c) model_classes snapshot =
      if mem_text c model_classes
      then (elim (decision_for py snapshot c) [ none ↦ collecting | some d ↦ safety_state d.state ])
      else unmapped

  -- `_evaluate_requirement`
  unfoldable pub evaluate_requirement :
      PpeRequirement → List Text → PpeStabilitySnapshot F → Result PpeRequirementAssessment
  evaluate_requirement r model_classes snapshot = assessment_item_init py (record {
    ppe_id = r.ppe_id;
    name = r.name;
    detection_class = r.detection_class;
    state = requirement_state r.detection_class model_classes snapshot;
  })

  -- the tuple of assessments, requirement by requirement
  unfoldable pub evaluate_requirements :
      List PpeRequirement
      → List Text
      → PpeStabilitySnapshot F
      → Result (List PpeRequirementAssessment)
  evaluate_requirements [] model_classes snapshot = ok []
  evaluate_requirements (r ∷ rs) model_classes snapshot = do
    item ← evaluate_requirement r model_classes snapshot
    items ← evaluate_requirements rs model_classes snapshot
    ok (item ∷ items)

  -- `PpeSafetyEngine.evaluate`
  unfoldable pub evaluate :
      Operation → List Text → PpeStabilitySnapshot F → Result PpeSafetyAssessment
  evaluate operation model_classes snapshot = do
    requirements ←
        evaluate_requirements operation.required_ppe (frame_classes py model_classes) snapshot
    assessment_init (record {
      operation_id = operation.operation_id;
      operation_active = operation.active;
      status = status_for operation.active requirements;
      requirements = requirements;
      sample_count = snapshot.sample_count;
      window_size = snapshot.window_size;
    })
