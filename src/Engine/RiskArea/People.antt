-- ===== src/Engine/RiskArea/People.antt =====
-- `RiskAreaPoseEngine.evaluate` of 2identify_operador/app/engine/risk_area.py.
use identify.Base.{
  ℕ, ◌+◌, ◌≤◌, ◌<◌, ◌==◌, ◌≡◌, refl, Bool, true, false, not, List, [], ◌∷◌, any, map, keep, length,
  count_if, count_if-le-length, arith, if◌then◌else◌, Bool-cases, inl, inr, Text, is_empty, Str,
}
use identify.Base.Result.{ok, ◌>>=◌}
use identify.Domain.Alert.{SafetyViolation, is_positive, violation_init}
use identify.Domain.RiskArea.{Plane, NormalizedPoint, RiskAreaGeometry, polygon_edges, point_init}
use identify.Vision.Pose.{PoseKeypoint, PersonPose, PoseDetectionBatch}
use identify.Engine.RiskArea.Defs.{
  RiskAreaAssessment, is_member, contains_point, is_visible, normalized, normalize_points,
  any_inside, count_people, area_violation, violations_of, evaluate,
}
use identify.Engine.RiskArea.Points.{HasGaps, even_odd, classify_point_lem}

-- Laws of IEEE 754 numbers: gaps, the size of a frame that is not zero, and the division of a
-- coordinate by the size that bounds it, which rounds to a number from zero to one.
pub record IsPlane {F : Type 0} (pl : Plane F) : Type 0 where
  pub gaps : HasGaps pl
  pub sizes : (n : ℕ) → 0 < n → pl.eq (pl.of_int n) pl.num.zero ≡ false
  pub finite :
      (x : F) (n : ℕ)
      → 0 < n
      → pl.num.le pl.num.zero x ≡ true
      → pl.num.le x (pl.of_int n) ≡ true
      → pl.num.is_finite (pl.num.div x (pl.of_int n)) ≡ true
  pub at_least :
      (x : F) (n : ℕ)
      → 0 < n
      → pl.num.le pl.num.zero x ≡ true
      → pl.num.le x (pl.of_int n) ≡ true
      → pl.num.le pl.num.zero (pl.num.div x (pl.of_int n)) ≡ true
  pub at_most :
      (x : F) (n : ℕ)
      → 0 < n
      → pl.num.le pl.num.zero x ≡ true
      → pl.num.le x (pl.of_int n) ≡ true
      → pl.num.le (pl.num.div x (pl.of_int n)) pl.num.one ≡ true

module _ {F : Type 0} (pl : Plane F) (threshold : F) (batch : PoseDetectionBatch F)
    (geometry : RiskAreaGeometry F) where
  abbrev scaled : PoseKeypoint F → NormalizedPoint F
  scaled k = record {
    x = pl.num.div k.x (pl.of_int batch.frame_width);
    y = pl.num.div k.y (pl.of_int batch.frame_height);
  }

  -- the visible points of a person on the normalised frame
  abbrev pub points_of : PersonPose F → List (NormalizedPoint F)
  points_of pose = map scaled (keep (is_visible pl threshold batch) pose.keypoints)

  -- the point is inside or on the boundary, by the even-odd rule
  abbrev pub within : NormalizedPoint F → Bool
  within p = is_member pl true (even_odd pl p (polygon_edges geometry.vertices))

  abbrev some_point : List (NormalizedPoint F) → Bool
  some_point [] = false
  some_point (p ∷ ps) = true

  -- a person of whom a point is visible, and one of whom a visible point is within the area
  abbrev pub is_seen : PersonPose F → Bool
  is_seen pose = some_point (points_of pose)

  abbrev pub is_within : PersonPose F → Bool
  is_within pose = any within (points_of pose)

  module _ (laws : IsPlane pl) (wide : 0 < batch.frame_width) (high : 0 < batch.frame_height) where
    normalized_lem :
        (k : PoseKeypoint F)
        → is_visible pl threshold batch k ≡ true
        → normalized pl threshold batch k ≡ ok (scaled k)
    unfolding point_init
    normalized_lem k h =
        let x0 : pl.num.le pl.num.zero k.x ≡ true = ground arith in
        let x1 : pl.num.le k.x (pl.of_int batch.frame_width) ≡ true = ground arith in
        let y0 : pl.num.le pl.num.zero k.y ≡ true = ground arith in
        let y1 : pl.num.le k.y (pl.of_int batch.frame_height) ≡ true = ground arith in
        rw
          (
            laws.sizes batch.frame_width wide,
            laws.sizes batch.frame_height high,
            laws.finite k.x batch.frame_width wide x0 x1,
            laws.finite k.y batch.frame_height high y0 y1,
            laws.at_least k.x batch.frame_width wide x0 x1,
            laws.at_least k.y batch.frame_height high y0 y1,
            laws.at_most k.x batch.frame_width wide x0 x1,
            laws.at_most k.y batch.frame_height high y0 y1,
          )
          refl

    normalize_points_lem :
        (ks : List (PoseKeypoint F))
        → normalize_points pl threshold batch (keep (is_visible pl threshold batch) ks)
          ≡ ok (map scaled (keep (is_visible pl threshold batch) ks))
    unfolding normalize_points
    normalize_points_lem [] = refl
    normalize_points_lem (k ∷ ks) = elim (Bool-cases (is_visible pl threshold batch k)) [
      | inl visible ↦ rw (visible, normalized_lem k visible, normalize_points_lem ks) refl
      | inr hidden ↦ rw hidden (normalize_points_lem ks)
    ]

    contains_point_lem : (p : NormalizedPoint F) → contains_point pl geometry true p ≡ ok (within p)
    unfolding contains_point
    contains_point_lem p = rw (classify_point_lem pl p laws.gaps geometry) refl

    any_inside_lem :
        (ps : List (NormalizedPoint F)) → any_inside pl threshold geometry ps ≡ ok (any within ps)
    unfolding any_inside
    any_inside_lem [] = refl
    any_inside_lem (p ∷ ps) = elim (Bool-cases (within p)) [
      | inl found ↦ rw (contains_point_lem p, found) refl
      | inr free ↦ rw (contains_point_lem p, free) (any_inside_lem ps)
    ]

    count_step :
        (poses : List (PersonPose F)) (e w n m : ℕ) (ps : List (NormalizedPoint F))
        → ((i j : ℕ) → count_people pl threshold batch geometry poses i j ≡ ok (i + n, j + m))
        → (elim ps [
          | [] ↦ count_people pl threshold batch geometry poses e w
          | q ∷ qs ↦ any_inside pl threshold geometry (q ∷ qs) >>= λ found.
              count_people pl threshold batch geometry poses (e + 1) (if found then w + 1 else w)
        ])
          ≡ ok (
            e + ((if some_point ps then 1 else 0) + n),
            w + ((if any within ps then 1 else 0) + m),
          )
    count_step poses e w n m [] rest =
        let e0 : e + (0 + n) ≡ e + n = omega arith in
        let w0 : w + (0 + m) ≡ w + m = omega arith in rw (e0, w0) (rest e w)
    count_step poses e w n m (q ∷ qs) rest =
        let e1 : e + (1 + n) ≡ (e + 1) + n = omega arith in
        elim (Bool-cases (any within (q ∷ qs))) [
          | inl found ↦
              let w1 : w + (1 + m) ≡ (w + 1) + m = omega arith in
              rw (any_inside_lem (q ∷ qs), found, e1, w1) (rest (e + 1) (w + 1))
          | inr free ↦
              let w0 : w + (0 + m) ≡ w + m = omega arith in
              rw (any_inside_lem (q ∷ qs), free, e1, w0) (rest (e + 1) w)
        ]

    count_people_lem :
        (poses : List (PersonPose F)) (e w : ℕ)
        → count_people pl threshold batch geometry poses e w
          ≡ ok (e + count_if is_seen poses, w + count_if is_within poses)
    unfolding count_people
    count_people_lem [] e w =
        let e0 : e + 0 ≡ e = omega arith in let w0 : w + 0 ≡ w = omega arith in rw (e0, w0) refl
    count_people_lem (pose ∷ poses) e w = rw (normalize_points_lem pose.keypoints) (
        count_step poses e w (count_if is_seen poses) (count_if is_within poses) (points_of pose)
          (count_people_lem poses))

    one_within-seen :
        (ps : List (NormalizedPoint F))
        → (if any within ps then 1 else 0) ≤ (if some_point ps then 1 else 0)
    one_within-seen [] = omega arith
    one_within-seen (p ∷ ps) = ground arith

    within-seen : (poses : List (PersonPose F)) → count_if is_within poses ≤ count_if is_seen poses
    within-seen [] = omega arith
    within-seen (pose ∷ poses) = omega (arith, within-seen poses, one_within-seen (points_of pose))

  any-count_if :
      (poses : List (PersonPose F)) → (count_if is_within poses == 0) ≡ not (any is_within poses)
  any-count_if [] = refl
  any-count_if (pose ∷ poses) = elim (Bool-cases (is_within pose)) [
    | inl found ↦
        let more : (1 + count_if is_within poses == 0) ≡ false = ground arith in
        rw (found, more) refl
    | inr free ↦
        let same : 0 + count_if is_within poses ≡ count_if is_within poses = omega arith in
        rw (free, same) (any-count_if poses)
  ]

  module _ (py : Str) (str_int : ℕ → Text) (risk_area_id : ℕ) (name : Text) where
    abbrev found_violations : SafetyViolation → List SafetyViolation
    found_violations v = if any is_within batch.poses then v ∷ [] else []

    violations_of_lem :
        (v : SafetyViolation)
        → violation_init py (area_violation str_int risk_area_id (py.strip name)) ≡ ok v
        → violations_of pl py str_int (count_if is_within batch.poses) risk_area_id (py.strip name)
          ≡ ok (found_violations v)
    unfolding violations_of
    violations_of_lem v e = elim (Bool-cases (any is_within batch.poses)) [
      | inl found ↦ rw (any-count_if batch.poses, found, e) refl
      | inr free ↦ rw (any-count_if batch.poses, free) refl
    ]

    -- By the laws of the numbers, for a frame with positive sizes, a positive identifier, a name
    -- that is not blank and a violation that its constructor accepts, the evaluation returns: it
    -- counts as inside the people of whom a visible point is within the area by the even-odd rule,
    -- no more than were evaluated, who are no more than were detected, and it reports that one
    -- violation exactly if someone is inside.
    pub evaluate_lem :
        (v : SafetyViolation)
        → IsPlane pl
        → 0 < batch.frame_width
        → 0 < batch.frame_height
        → is_positive risk_area_id ≡ true
        → is_empty (py.strip name) ≡ false
        → violation_init py (area_violation str_int risk_area_id (py.strip name)) ≡ ok v
        → (a : RiskAreaAssessment F) × (evaluate pl py str_int threshold batch geometry risk_area_id
              name
            ≡ ok a)
          × (a.violations ≡ found_violations v)
          × (a.people_inside ≡ count_if is_within batch.poses)
          × (a.people_inside ≤ a.evaluated_people)
          × (a.evaluated_people ≤ a.detected_people)
          × (a.detected_people ≡ length batch.poses)
    unfolding evaluate
    evaluate_lem v laws wide high positive named built =
        let a : RiskAreaAssessment F = record {
          violations = found_violations v;
          detected_people = length batch.poses;
          evaluated_people = count_if is_seen batch.poses;
          people_inside = count_if is_within batch.poses;
          inference_milliseconds = batch.inference_milliseconds;
        } in
        let e0 : 0 + count_if is_seen batch.poses ≡ count_if is_seen batch.poses = omega arith in
        let w0 : 0 + count_if is_within batch.poses ≡ count_if is_within batch.poses =
          omega arith in
        (
          a,
          rw
              (
                positive,
                named,
                count_people_lem laws wide high batch.poses 0 0,
                e0,
                w0,
                violations_of_lem v built,
              )
              refl,
          refl,
          refl,
          within-seen laws wide high batch.poses,
          count_if-le-length is_seen batch.poses,
          refl,
        )
