-- ===== src/Engine/Ergonomics/Examples.antt =====
-- A person of 2identify_operador/app/engine/ergonomics.py with the left wrist above the shoulder, on
-- whole pixels.
use identify.Base.{
  ℕ, ◌+◌, ◌-◌, ◌*◌, ◌≤◌, ◌≡◌, ◌==◌, refl, true, false, ltb, leb, [], ◌∷◌, map, All, codes, text_lt,
  plain_str, normalize,
}
use identify.Base.Result.{ok}
use identify.Base.Sort.{IsSorted}
use identify.Domain.Alert.{SafetyViolation, warning, violation_init}
use identify.Vision.Pose.{PoseKeypoint, PersonPose, PoseDetectionBatch, keypoint_init}
use identify.Engine.Ergonomics.Defs.{
  Trigonometry, ErgonomicsEngine, ErgonomicAssessment, posture_violation, evaluate_pose, trunk,
  overhead, knees, midpoint, visible, angle_from_vertical,
}
use identify.Engine.Ergonomics.Evaluate.{evaluate}
use identify.Engine.Ergonomics.Screenings.{IsPosture}
use identify.Engine.Ergonomics.Merge.{screened}
use identify.Engine.Ergonomics.Keys.{AreDistinct}
use identify.Engine.Ergonomics.Frame.{Reported, evaluate_merges}

abbrev pixels : Trigonometry ℕ
pixels = record {
  plane = record {
    num = record {
      zero = 0;
      one = 1;
      add = λ a b. a + b;
      sub = λ a b. a - b;
      mul = λ a b. a * b;
      div = λ a b. a;
      neg = λ a. 0;
      lt = ltb;
      le = leb;
      is_finite = λ a. true;
    };
    abs = λ a. a;
    eq = λ a b. a == b;
    of_int = λ n. n;
    epsilon = 0;
  };
  two = 2;
  right_angle = 90;
  straight_angle = 180;
  degrees = λ a. a;
  atan2 = λ a b. a;
  acos = λ a. a;
  hypot = λ a b. a + b;
  round_text = λ a. a ∷ [];
}

abbrev engine : ErgonomicsEngine ℕ
engine = record {
  keypoint_threshold = 1;
  trunk_warning = 30;
  trunk_critical = 60;
  overhead_reach_enabled = true;
  knee_flexion_enabled = false;
  knee_warning = 90;
  knee_critical = 60;
}

abbrev at : ℕ → PoseKeypoint ℕ
at y = record { x = 5; y = y; confidence = 1 }

abbrev reaching : PersonPose ℕ
reaching = record {
  confidence = 1;
  keypoints =
      at 2
      ∷ at 2
      ∷ at 2
      ∷ at 2
      ∷ at 2
      ∷ at 9
      ∷ at 9
      ∷ at 9
      ∷ at 9
      ∷ at 4
      ∷ at 9
      ∷ at 20
      ∷ at 20
      ∷ at 30
      ∷ at 30
      ∷ at 40
      ∷ at 40
      ∷ [];
}

abbrev raised_arm : SafetyViolation
raised_arm =
    posture_violation (codes "ergonomics:overhead_reach")
      (codes "Risco ergonômico: o braço esquerdo acima da linha dos ombros") warning

abbrev frame : PoseDetectionBatch ℕ
frame = record {
  poses = reaching ∷ [];
  frame_width = 640;
  frame_height = 480;
  inference_milliseconds = 30;
}

reaching_screened : evaluate_pose pixels plain_str engine reaching ≡ ok (raised_arm ∷ [], true)
unfolding evaluate_pose trunk overhead knees midpoint visible angle_from_vertical keypoint_init
    violation_init normalize
reaching_screened = refl

evaluate_merges_example :
    (a : ErgonomicAssessment ℕ) × (evaluate pixels plain_str engine frame ≡ ok a)
    × AreDistinct (map (λ v. v.subject_key) a.violations)
    × IsSorted text_lt (map (λ v. v.subject_key) a.violations)
    × All (IsPosture plain_str) a.violations
    × All (λ pose. All (Reported a.violations) (screened pixels plain_str engine pose)) frame.poses
    × (a.evaluated_people ≤ a.detected_people)
evaluate_merges_example =
    evaluate_merges pixels plain_str engine frame ((raised_arm ∷ [], true, reaching_screened), tt)
