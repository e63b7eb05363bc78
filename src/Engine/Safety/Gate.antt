-- ===== src/Engine/Safety/Gate.antt =====
-- `can_start_operation` of 2identify_operador/app/engine/ppe_safety.py.
use identify.Base.{◌≡◌, ◌↔◌, refl, Bool, true, List, [], ◌∷◌, map, arith, All, Text, Str}
use identify.Base.Result.{ok}
use identify.Domain.Operation.{Operation, PpeRequirement}
use identify.Engine.Stability.Defs.{PpeStabilitySnapshot}
use identify.Engine.Safety.Defs.{
  PpeSafetyAssessment, same_status, compliant, status_for, can_start_operation, evaluate,
}
use identify.Engine.Safety.Laws.{
  IsBuilt, Seen, has_requirements, item_of, items_confirmed, items-Seen, evaluate_total,
}

module _ {F : Type 0} (py : Str) (model_classes : List Text) (s : PpeStabilitySnapshot F) where
  status_compliant :
      (active : Bool) (rs : List PpeRequirement)
      → same_status (status_for active (map (item_of py model_classes s) rs)) compliant ≡ true
        ↔ (active ≡ true) × (has_requirements rs ≡ true) × All (Seen py model_classes s) rs
  unfolding status_for
  status_compliant active [] = (λ h. absurd (ground arith), λ (a, b, c). absurd (ground arith))
  status_compliant active (r ∷ rs) = (
    λ h. (ground arith, refl, items_confirmed py model_classes s (r ∷ rs) (ground arith)),
    λ (a, b, c).
        let (confirmed_all, open_none) = items-Seen py model_classes s (r ∷ rs) c in ground arith,
  )

  -- For an operation and a snapshot that the constructors built, the evaluation returns an
  -- assessment, which lets the operation start exactly if it is active, requires at least one item,
  -- and each required item has a class that the model knows and the snapshot confirms present.
  pub evaluate_gate :
      (operation : Operation)
      → IsBuilt py model_classes s operation
      → (a : PpeSafetyAssessment) × (evaluate py operation model_classes s ≡ ok a)
        × (can_start_operation a ≡ true
            ↔ (operation.active ≡ true)
              × (has_requirements operation.required_ppe ≡ true)
              × All (Seen py model_classes s) operation.required_ppe)
  unfolding can_start_operation
  evaluate_gate operation b = (
    _,
    evaluate_total py model_classes s operation b,
    status_compliant operation.active operation.required_ppe,
  )
