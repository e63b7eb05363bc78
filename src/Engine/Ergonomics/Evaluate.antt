-- ===== src/Engine/Ergonomics/Evaluate.antt =====
-- `evaluate` of 2identify_operador/app/engine/ergonomics.py, on the screenings of each person.
use identify.Base.{
  ℕ, ◌+◌, ◌==◌, Bool, true, false, not, ◌&&◌, List, [], ◌∷◌, map, length, if◌then◌else◌, Text,
  text_lt, Str,
}
use identify.Base.Dict.{Dict, lookup}
use identify.Base.Result.{Result, ok, key_error, ◌>>=◌, or_raise}
use identify.Base.Sort.{sorted}
use identify.Domain.Alert.{SafetyViolation}
use identify.Vision.Pose.{PersonPose, PoseDetectionBatch}
use identify.Engine.Ergonomics.Defs.{
  Trigonometry, ErgonomicAssessment, ErgonomicsEngine, merge_all, evaluate_pose,
}

module _ {F : Type 0} (m : Trigonometry F) where
  module _ (py : Str) (e : ErgonomicsEngine F) where
    -- the loop over the poses, with the dictionary and the count so far
    unfoldable pub screen_poses :
        List (PersonPose F) → Dict SafetyViolation → ℕ → Result (Dict SafetyViolation × ℕ)
    screen_poses [] found evaluated = ok (found, evaluated)
    screen_poses (pose ∷ poses) found evaluated = do
      (vs, seen) ← evaluate_pose m py e pose
      screen_poses poses (merge_all vs found) (if seen then evaluated + 1 else evaluated)

    -- `violations[key]` of each key
    unfoldable pub values_at : Dict SafetyViolation → List Text → Result (List SafetyViolation)
    values_at found [] = ok []
    values_at found (key ∷ keys) = do
      v ← or_raise (lookup key found) key_error
      vs ← values_at found keys
      ok (v ∷ vs)

    -- `evaluate`
    unfoldable pub evaluate : PoseDetectionBatch F → Result (ErgonomicAssessment F)
    evaluate batch = do
      (found, evaluated) ← screen_poses batch.poses [] 0
      violations ← values_at found (sorted text_lt (map (λ entry. entry.0) found))
      ok (record {
        violations = violations;
        detected_people = length batch.poses;
        evaluated_people = evaluated;
        inference_milliseconds = batch.inference_milliseconds;
      })

-- `is_compliant`
unfoldable pub is_compliant : {F : Type 0} → ErgonomicAssessment F → Bool
is_compliant a = not (a.evaluated_people == 0) && elim a.violations [ [] ↦ true | v ∷ vs ↦ false ]
