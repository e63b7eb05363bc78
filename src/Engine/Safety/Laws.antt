-- ===== src/Engine/Safety/Laws.antt =====
-- The assessment of an operation and a snapshot: 2identify_operador/app/engine/ppe_safety.py.
use identify.Base.{
  ◌≡◌, refl, ap, Bool, true, false, some, List, [], ◌∷◌, map, arith, All, all, any, Option-cases,
  inl, inr, Text, Str,
}
use identify.Base.Result.{ok}
use identify.Domain.Alert.{is_positive}
use identify.Domain.Operation.{Operation, PpeRequirement, requirement_init, mem_text}
use identify.Domain.WorkSession.{unique}
use identify.Engine.Stability.Defs.{
  PpeStabilityState, PpeStabilityDecision, PpeStabilitySnapshot, snapshot_init, decision_for,
  frame_classes,
}
use identify.Engine.Safety.Defs.{
  PpeRequirementSafetyState, PpeSafetyStatus, PpeRequirementAssessment, blocks, is_confirmed,
  same_status, assessment_item_init, status_for, assessment_init, requirement_state,
  evaluate_requirement, evaluate_requirements, evaluate,
}

-- The requirement was seen, stably, by a model that knows its class.
pub record IsSeen {F : Type 0} (py : Str) (model_classes : List Text) (s : PpeStabilitySnapshot F)
    (r : PpeRequirement) (c : Text) (d : PpeStabilityDecision F) : Type 0 where
  pub mapped : r.detection_class ≡ some c
  pub known : mem_text c (frame_classes py model_classes) ≡ true
  pub decided : decision_for py s c ≡ some d
  pub present : d.state ≡ PpeStabilityState.confirmed_present

abbrev pub Seen : {F : Type 0} → Str → List Text → PpeStabilitySnapshot F → PpeRequirement → Type 0
Seen {F} py model_classes s r =
    (c : Text) × (d : PpeStabilityDecision F) × IsSeen py model_classes s r c d

module _ {F : Type 0} (py : Str) (model_classes : List Text) (s : PpeStabilitySnapshot F) where
  abbrev state_of : PpeRequirement → PpeRequirementSafetyState
  state_of r = requirement_state py r.detection_class (frame_classes py model_classes) s

  confirmed→Seen :
      (r : PpeRequirement) → is_confirmed (state_of r) ≡ true → Seen py model_classes s r
  unfolding requirement_state
  confirmed→Seen r h = elim (Option-cases r.detection_class) [
    | inl unmapped ↦ absurd (ground arith)
    | inr (c, mapped) ↦ elim (Option-cases (decision_for py s c)) [
      | inl undecided ↦ absurd (ground arith)
      | inr (d, decided) ↦ (
        c,
        d,
        record { mapped = mapped; known = ground arith; decided = decided; present = ground arith },
      )
    ]
  ]

  Seen→confirmed :
      (r : PpeRequirement) → Seen py model_classes s r → is_confirmed (state_of r) ≡ true
  unfolding requirement_state
  Seen→confirmed r (c, d, k) = ground arith

  -- what the evaluation makes of a requirement that the constructor built
  abbrev pub item_of : PpeRequirement → PpeRequirementAssessment
  item_of r = record {
    ppe_id = r.ppe_id;
    name = r.name;
    detection_class = r.detection_class;
    state = state_of r;
  }

  evaluate_requirements_lem :
      (rs : List PpeRequirement)
      → All (λ r. requirement_init py r ≡ ok r) rs
      → evaluate_requirements py rs (frame_classes py model_classes) s ≡ ok (map item_of rs)
  unfolding evaluate_requirements evaluate_requirement assessment_item_init requirement_init
  evaluate_requirements_lem [] h = refl
  evaluate_requirements_lem (r ∷ rs) h = ground (arith, evaluate_requirements_lem rs h.1)

  pub items_confirmed :
      (rs : List PpeRequirement)
      → all (λ item. is_confirmed item.state) (map item_of rs) ≡ true
      → All (Seen py model_classes s) rs
  items_confirmed [] h = tt
  items_confirmed (r ∷ rs) h = (confirmed→Seen r (ground arith), items_confirmed rs (ground arith))

  pub items-Seen :
      (rs : List PpeRequirement)
      → All (Seen py model_classes s) rs
      → (all (λ item. is_confirmed item.state) (map item_of rs) ≡ true)
        × (any (λ item. blocks item.state) (map item_of rs) ≡ false)
  items-Seen [] h = (refl, refl)
  items-Seen (r ∷ rs) h =
      let (confirmed_rest, open_rest) = items-Seen rs h.1 in
      (ground (arith, Seen→confirmed r h.0), ground (arith, Seen→confirmed r h.0))

  -- What the constructors have checked of the operation and of the snapshot.
  pub record IsBuilt (operation : Operation) : Type 0 where
    pub operation_id : is_positive operation.operation_id ≡ true
    pub requirements : All (λ r. requirement_init py r ≡ ok r) operation.required_ppe
    pub distinct : unique (map (λ r. r.ppe_id) operation.required_ppe) ≡ true
    pub snapshot : snapshot_init s ≡ ok s

  pub same_ids :
      (rs : List PpeRequirement)
      → map (λ item. item.ppe_id) (map item_of rs) ≡ map (λ r. r.ppe_id) rs
  same_ids [] = refl
  same_ids (r ∷ rs) = ap (◌∷◌ r.ppe_id) (same_ids rs)

  same_status_refl : (x : PpeSafetyStatus) → same_status x x ≡ true
  same_status_refl x = ground arith

  -- The evaluation of an operation and a snapshot that the constructors built raises nothing, and
  -- assesses each requirement in its order.
  pub evaluate_total :
      (operation : Operation)
      → IsBuilt operation
      → evaluate py operation model_classes s
        ≡ ok (record {
          operation_id = operation.operation_id;
          operation_active = operation.active;
          status = status_for operation.active (map item_of operation.required_ppe);
          requirements = map item_of operation.required_ppe;
          sample_count = s.sample_count;
          window_size = s.window_size;
        })
  unfolding evaluate assessment_init snapshot_init
  evaluate_total operation b = ground (
    arith,
    evaluate_requirements_lem operation.required_ppe b.requirements,
    same_ids operation.required_ppe,
    same_status_refl (status_for operation.active (map item_of operation.required_ppe)),
  )

abbrev pub has_requirements : List PpeRequirement → Bool
has_requirements [] = false
has_requirements (r ∷ rs) = true
