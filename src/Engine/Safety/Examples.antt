-- ===== src/Engine/Safety/Examples.antt =====
-- The gate of 2identify_operador/app/engine/ppe_safety.py on an operation that asks for a helmet.
use identify.Base.{
  ℕ, ◌≡◌, ◌↔◌, refl, true, none, some, [], ◌∷◌, All, Text, codes, plain_str, normalize, text_eq,
}
use identify.Base.Result.{ok}
use identify.Domain.Operation.{Operation, requirement_init}
use identify.Engine.Stability.Defs.{PpeStabilitySnapshot, PpeStabilityState, snapshot_init}
use identify.Engine.Safety.Defs.{PpeSafetyAssessment, can_start_operation, evaluate}
use identify.Engine.Safety.Laws.{IsBuilt, Seen, has_requirements}
use identify.Engine.Safety.Gate.{evaluate_gate}

abbrev helmet : Text
helmet = codes "helmet"

abbrev welding : Operation
welding = record {
  operation_id = 3;
  name = codes "welding";
  required_ppe = record { ppe_id = 4; name = helmet; detection_class = some helmet } ∷ [];
  risk_area = none;
  active = true;
}

-- ratios in percent
abbrev seen_helmet : PpeStabilitySnapshot ℕ
seen_helmet = record {
  decisions =
      record {
        detection_class = helmet;
        state = PpeStabilityState.confirmed_present;
        observed_frames = 5;
        sample_count = 5;
        presence_ratio = 100;
      }
      ∷ [];
  sample_count = 5;
  window_size = 5;
}

welding-IsBuilt : IsBuilt plain_str (helmet ∷ []) seen_helmet welding
unfolding requirement_init snapshot_init normalize text_eq
welding-IsBuilt = record {
  operation_id = refl;
  requirements = (refl, tt);
  distinct = refl;
  snapshot = refl;
}

evaluate_gate_example :
    (a : PpeSafetyAssessment) × (evaluate plain_str welding (helmet ∷ []) seen_helmet ≡ ok a)
    × (can_start_operation a ≡ true
        ↔ (true ≡ true)
          × (has_requirements welding.required_ppe ≡ true)
          × All (Seen plain_str (helmet ∷ []) seen_helmet) welding.required_ppe)
evaluate_gate_example = evaluate_gate plain_str (helmet ∷ []) seen_helmet welding welding-IsBuilt
