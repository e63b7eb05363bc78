-- ===== src/Engine/RiskArea/Examples.antt =====
-- A triangle of 2identify_operador/app/engine/risk_area.py and a person in it, with numbers that are
-- whole, differences without a sign and quotients rounded up to one.
use identify.Base.{
  ℕ, ◌+◌, ◌-◌, ◌*◌, ◌≤◌, ◌≡◌, ◌==◌, refl, true, if◌then◌else◌, ltb, leb, [], ◌∷◌, ◌++◌, arith,
  length, count_if, any, Text, codes, plain_str, normalize,
}
use identify.Base.Result.{ok}
use identify.Domain.Alert.{SafetyViolation, violation_init}
use identify.Domain.RiskArea.{
  Plane, RiskAreaGeometry, polygon_edges, geometry_init, unique_points, signed_double_area,
  has_self_intersection, meets_from, meets_later, segments_intersect, point_within_segment,
}
use identify.Domain.RiskArea.Laws.{geometry_init_idempotent}
use identify.Vision.Pose.{PoseDetectionBatch}
use identify.Engine.RiskArea.Defs.{RiskAreaAssessment, classify_point, area_violation, evaluate}
use identify.Engine.RiskArea.Points.{HasGaps, even_odd, classify_point_lem}
use identify.Engine.RiskArea.People.{IsPlane, is_within, evaluate_lem}

abbrev whole : Plane ℕ
whole = record {
  num = record {
    zero = 0;
    one = 1;
    add = λ a b. a + b;
    sub = λ a b. (a - b) + (b - a);
    mul = λ a b. a * b;
    div = λ a b. if a == 0 then 0 else 1;
    neg = λ a. 0;
    lt = ltb;
    le = leb;
    is_finite = λ a. true;
  };
  abs = λ a. a;
  eq = λ a b. a == b;
  of_int = λ n. n;
  epsilon = 0;
}

whole-HasGaps : HasGaps whole
whole-HasGaps p s e h = ground arith

whole-IsPlane : IsPlane whole
whole-IsPlane = record {
  gaps = whole-HasGaps;
  sizes = λ n h. ground arith;
  finite = λ x n h k l. refl;
  at_least = λ x n h k l. ground arith;
  at_most = λ x n h k l. ground arith;
}

abbrev triangle : RiskAreaGeometry ℕ
triangle = record {
  vertices = record { x = 0; y = 0 } ∷ record { x = 1; y = 0 } ∷ record { x = 1; y = 1 } ∷ [];
}

classify_point_lem_example :
    classify_point whole triangle (record { x = 0; y = 1 })
    ≡ ok (even_odd whole (record { x = 0; y = 1 }) (polygon_edges triangle.vertices))
classify_point_lem_example =
    classify_point_lem whole (record { x = 0; y = 1 }) whole-HasGaps triangle

abbrev closed_triangle : RiskAreaGeometry ℕ
closed_triangle = record { vertices = triangle.vertices ++ (record { x = 0; y = 0 } ∷ []) }

triangle_accepted : geometry_init whole closed_triangle ≡ ok triangle
unfolding geometry_init signed_double_area polygon_edges has_self_intersection meets_from
    meets_later segments_intersect point_within_segment
triangle_accepted = refl

geometry_init_idempotent_example :
    (geometry_init whole triangle ≡ ok triangle)
    × (3 ≤ length triangle.vertices)
    × (unique_points whole triangle.vertices ≡ true)
geometry_init_idempotent_example =
    geometry_init_idempotent whole closed_triangle {accepted = triangle} triangle_accepted

-- a person of whom one point is seen
abbrev frame : PoseDetectionBatch ℕ
frame = record {
  poses = record { confidence = 1; keypoints = record { x = 5; y = 0; confidence = 1 } ∷ [] } ∷ [];
  frame_width = 640;
  frame_height = 480;
  inference_milliseconds = 30;
}

abbrev number_text : ℕ → Text
number_text n = n ∷ []

abbrev press : SafetyViolation
press = area_violation number_text 7 (codes "press")

press_built : violation_init plain_str (area_violation number_text 7 (codes "press")) ≡ ok press
unfolding violation_init normalize
press_built = refl

evaluate_lem_example :
    (a : RiskAreaAssessment ℕ) × (evaluate whole plain_str number_text 1 frame triangle 7
        (codes "press")
      ≡ ok a)
    × (a.violations
        ≡ (if any (is_within whole 1 frame triangle) frame.poses then press ∷ [] else []))
    × (a.people_inside ≡ count_if (is_within whole 1 frame triangle) frame.poses)
    × (a.people_inside ≤ a.evaluated_people)
    × (a.evaluated_people ≤ a.detected_people)
    × (a.detected_people ≡ length frame.poses)
evaluate_lem_example =
    evaluate_lem whole 1 frame triangle plain_str number_text 7 (codes "press") press whole-IsPlane
      (omega arith) (omega arith) refl refl press_built
