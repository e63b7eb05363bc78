-- ===== src/Engine/RiskArea/Defs.antt =====
-- 2identify_operador/app/engine/risk_area.py. A division by zero raises. `str_int` is `str` of an
-- integer.
use identify.Base.{
  ℕ, ◌+◌, ◌==◌, Bool, true, false, not, ◌&&◌, none, List, [], ◌∷◌, ◌++◌, keep, length,
  if◌then◌else◌, Text, codes, is_empty, Str,
}
use identify.Base.Result.{Result, ok, value_error, ◌>>=◌, ◌>>◌, raise_if}
use identify.Domain.Alert.{
  SafetyViolation, person_in_risk_area, critical, is_positive, violation_init,
}
use identify.Domain.RiskArea.{
  Plane, NormalizedPoint, RiskAreaGeometry, Edge, polygon_edges, divide, point_init,
  point_within_segment, orientation,
}
use identify.Vision.Pose.{PoseKeypoint, PersonPose, PoseDetectionBatch}

pub data RiskAreaPointRelation : Type 0 where
  outside boundary inside : RiskAreaPointRelation

pub record RiskAreaAssessment (F : Type 0) : Type 0 where
  pub violations : List SafetyViolation
  pub detected_people : ℕ
  pub evaluated_people : ℕ
  pub people_inside : ℕ
  pub inference_milliseconds : F

-- `a != b`
abbrev pub differ : Bool → Bool → Bool
differ true b = not b
differ false b = b

module _ {F : Type 0} (pl : Plane F) where
  -- `_point_on_segment`
  unfoldable pub point_on_segment : NormalizedPoint F → NormalizedPoint F → NormalizedPoint F → Bool
  point_on_segment point start end =
      if pl.num.lt pl.epsilon (pl.abs (orientation pl start end point))
      then false
      else point_within_segment pl point start end

  -- `crosses_horizontal_ray`
  abbrev pub crosses_horizontal_ray : NormalizedPoint F → Edge F → Bool
  crosses_horizontal_ray point (start, end) =
      differ (pl.num.lt point.y start.y) (pl.num.lt point.y end.y)

  -- `intersection_x`
  abbrev pub intersection_x : NormalizedPoint F → Edge F → Result F
  intersection_x point (start, end) = do
    offset ←
        divide pl (pl.num.mul (pl.num.sub point.y start.y) (pl.num.sub end.x start.x))
          (pl.num.sub end.y start.y)
    ok (pl.num.add start.x offset)

  -- the loop of `classify_point` over the edges
  unfoldable pub classify_edges :
      NormalizedPoint F → List (Edge F) → Bool → Result RiskAreaPointRelation
  classify_edges point [] is_inside = ok (if is_inside then inside else outside)
  classify_edges point (edge ∷ edges) is_inside =
      let same_side = classify_edges point edges is_inside in
      let other_side = classify_edges point edges (not is_inside) in
      if point_on_segment point edge.0 edge.1
      then ok boundary
      else if not (crosses_horizontal_ray point edge)
      then same_side
      else (intersection_x point edge >>= λ x.
          if pl.num.lt point.x x then other_side else same_side)

  -- `RiskAreaSpatialEngine.classify_point`
  unfoldable pub classify_point :
      RiskAreaGeometry F → NormalizedPoint F → Result RiskAreaPointRelation
  classify_point geometry point = classify_edges point (polygon_edges geometry.vertices) false

  abbrev pub is_member : Bool → RiskAreaPointRelation → Bool
  is_member include_boundary outside = false
  is_member include_boundary boundary = include_boundary
  is_member include_boundary inside = true

  -- `RiskAreaSpatialEngine.contains_point`
  unfoldable pub contains_point : RiskAreaGeometry F → Bool → NormalizedPoint F → Result Bool
  contains_point geometry include_boundary point = do
    relation ← classify_point geometry point
    ok (is_member include_boundary relation)

  module _ (threshold : F) where
    -- the condition of the comprehension in `evaluate`
    abbrev pub is_visible : PoseDetectionBatch F → PoseKeypoint F → Bool
    is_visible batch k =
        pl.num.le threshold k.confidence
        && pl.num.le pl.num.zero k.x
        && pl.num.le k.x (pl.of_int batch.frame_width)
        && pl.num.le pl.num.zero k.y
        && pl.num.le k.y (pl.of_int batch.frame_height)

    -- the point of a keypoint
    abbrev pub normalized : PoseDetectionBatch F → PoseKeypoint F → Result (NormalizedPoint F)
    normalized batch k = do
      x ← divide pl k.x (pl.of_int batch.frame_width)
      y ← divide pl k.y (pl.of_int batch.frame_height)
      point_init pl (record { x = x; y = y })

    -- `visible_points`, of the keypoints that are visible
    unfoldable pub normalize_points :
        PoseDetectionBatch F → List (PoseKeypoint F) → Result (List (NormalizedPoint F))
    normalize_points batch [] = ok []
    normalize_points batch (k ∷ ks) = do
      p ← normalized batch k
      ps ← normalize_points batch ks
      ok (p ∷ ps)

    abbrev pub visible_points :
        PoseDetectionBatch F → PersonPose F → Result (List (NormalizedPoint F))
    visible_points batch pose = normalize_points batch (keep (is_visible batch) pose.keypoints)

    -- the call of `any`, which stops at the first point inside
    unfoldable pub any_inside : RiskAreaGeometry F → List (NormalizedPoint F) → Result Bool
    any_inside geometry [] = ok false
    any_inside geometry (p ∷ ps) =
        let rest = any_inside geometry ps in
        contains_point geometry true p >>= λ found. if found then ok true else rest

    -- the loop over the poses, with `evaluated_people` and `people_inside` so far
    unfoldable pub count_people :
        PoseDetectionBatch F → RiskAreaGeometry F → List (PersonPose F) → ℕ → ℕ → Result (ℕ × ℕ)
    count_people batch geometry [] evaluated within = ok (evaluated, within)
    count_people batch geometry (pose ∷ poses) evaluated within = do
      points ← visible_points batch pose
      elim points [
        | [] ↦ count_people batch geometry poses evaluated within
        | p ∷ ps ↦ do
          found ← any_inside geometry (p ∷ ps)
          count_people batch geometry poses (evaluated + 1) (if found then within + 1 else within)
      ]

-- the violation that `evaluate` constructs
abbrev pub area_violation : (ℕ → Text) → ℕ → Text → SafetyViolation
area_violation str_int risk_area_id name = record {
  violation_type = person_in_risk_area;
  subject_key = codes "risk_area:" ++ str_int risk_area_id;
  summary = codes "Pessoa detectada na área de risco: " ++ name;
  severity = critical;
  ppe_id = none;
  ppe_name = none;
  track_id = none;
}

module _ {F : Type 0} (pl : Plane F) (py : Str) (str_int : ℕ → Text) where
  -- the violations of a frame with that many people inside
  unfoldable pub violations_of : ℕ → ℕ → Text → Result (List SafetyViolation)
  violations_of people_inside risk_area_id name =
      if people_inside == 0
      then ok []
      else (violation_init py (area_violation str_int risk_area_id name) >>= λ v. ok (v ∷ []))

  -- `RiskAreaPoseEngine.__init__`
  unfoldable pub risk_engine_init : F → Result F
  risk_engine_init threshold = do
    raise_if (not (pl.num.lt pl.num.zero threshold && pl.num.le threshold pl.num.one)) value_error
    ok threshold

  -- `RiskAreaPoseEngine.evaluate`
  unfoldable pub evaluate :
      F → PoseDetectionBatch F → RiskAreaGeometry F → ℕ → Text → Result (RiskAreaAssessment F)
  evaluate threshold batch geometry risk_area_id risk_area_name = do
    raise_if (not (is_positive risk_area_id)) value_error
    let name = py.strip risk_area_name
    raise_if (is_empty name) value_error
    (evaluated, within) ← count_people pl threshold batch geometry batch.poses 0 0
    violations ← violations_of within risk_area_id name
    ok (record {
      violations = violations;
      detected_people = length batch.poses;
      evaluated_people = evaluated;
      people_inside = within;
      inference_milliseconds = batch.inference_milliseconds;
    })

-- `is_clear`
unfoldable pub is_clear : {F : Type 0} → RiskAreaAssessment F → Bool
is_clear a = not (a.evaluated_people == 0) && (a.people_inside == 0)
