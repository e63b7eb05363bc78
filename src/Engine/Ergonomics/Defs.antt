-- ===== src/Engine/Ergonomics/Defs.antt =====
-- 2identify_operador/app/engine/ergonomics.py. The functions of `math` and the text of a rounded
-- number are parameters (`Trigonometry`); a division by zero raises.
use identify.Base.{
  ℕ, Bool, true, false, not, ◌&&◌, ◌||◌, Option, none, some, List, [], ◌∷◌, ◌++◌, ltb,
  if◌then◌else◌, Text, codes, Str,
}
use identify.Base.Dict.{Dict, lookup, insert}
use identify.Base.Result.{Result, ok, value_error, index_error, ◌>>=◌, ◌>>◌, raise_if, or_raise}
use identify.Domain.Alert.{
  SafetyViolation, SafetyAlertSeverity, warning, critical, ergonomic_risk, violation_init,
}
use identify.Domain.RiskArea.{Plane, divide}
use identify.Vision.Pose.{
  PoseKeypoint, PersonPose, CocoKeypoint, left_shoulder, right_shoulder, left_wrist, right_wrist,
  left_hip, right_hip, left_knee, right_knee, left_ankle, right_ankle, keypoint, keypoint_init,
}
use identify.Vision.Tracking.Defs.{least, greatest}

-- the numbers 2.0, 90.0 and 180.0, and the functions `degrees`, `atan2`, `acos`, `hypot` and
-- `str(round(x))`
pub record Trigonometry (F : Type 0) : Type 0 where
  pub plane : Plane F
  pub two : F
  pub right_angle : F
  pub straight_angle : F
  pub degrees : F → F
  pub atan2 : F → F → F
  pub acos : F → F
  pub hypot : F → F → F
  pub round_text : F → Text

pub record ErgonomicAssessment (F : Type 0) : Type 0 where
  pub violations : List SafetyViolation
  pub detected_people : ℕ
  pub evaluated_people : ℕ
  pub inference_milliseconds : F

pub record ErgonomicsEngine (F : Type 0) : Type 0 where
  pub keypoint_threshold : F
  pub trunk_warning : F
  pub trunk_critical : F
  pub overhead_reach_enabled : Bool
  pub knee_flexion_enabled : Bool
  pub knee_warning : F
  pub knee_critical : F

-- `_severity_rank`
abbrev pub severity_rank : SafetyAlertSeverity → ℕ
severity_rank warning = 1
severity_rank critical = 2

-- the violation of a posture
abbrev pub posture_violation : Text → Text → SafetyAlertSeverity → SafetyViolation
posture_violation subject_key summary severity = record {
  violation_type = ergonomic_risk;
  subject_key = subject_key;
  summary = summary;
  severity = severity;
  ppe_id = none;
  ppe_name = none;
  track_id = none;
}

abbrev pub degree_sign : Text
degree_sign = codes "°"

-- the body of the inner loop of `evaluate`
unfoldable pub merge_violation : SafetyViolation → Dict SafetyViolation → Dict SafetyViolation
merge_violation v found = elim (lookup v.subject_key found) [
  | none ↦ insert v.subject_key v found
  | some current ↦
      if ltb (severity_rank current.severity) (severity_rank v.severity)
      then insert v.subject_key v found
      else found
]

abbrev pub merge_all : List SafetyViolation → Dict SafetyViolation → Dict SafetyViolation
merge_all [] found = found
merge_all (v ∷ vs) found = merge_all vs (merge_violation v found)

module _ {F : Type 0} (m : Trigonometry F) where
  -- `ErgonomicsEngine.__init__`
  unfoldable pub ergonomics_init : ErgonomicsEngine F → Result (ErgonomicsEngine F)
  ergonomics_init e = do
    let fl = m.plane.num
    raise_if (not (fl.lt fl.zero e.keypoint_threshold && fl.le e.keypoint_threshold fl.one))
        value_error
    raise_if
        (not (
          fl.lt fl.zero e.trunk_warning
          && fl.lt e.trunk_warning e.trunk_critical
          && fl.le e.trunk_critical m.right_angle))
        value_error
    raise_if
        (not (
          fl.lt fl.zero e.knee_critical
          && fl.lt e.knee_critical e.knee_warning
          && fl.lt e.knee_warning m.straight_angle))
        value_error
    ok e

  -- `_angle_from_vertical`
  unfoldable pub angle_from_vertical : PoseKeypoint F → PoseKeypoint F → F
  angle_from_vertical origin target = m.degrees (
      m.atan2 (m.plane.abs (m.plane.num.sub target.x origin.x))
        (m.plane.abs (m.plane.num.sub target.y origin.y)))

  -- `_joint_angle`
  unfoldable pub joint_angle : PoseKeypoint F → PoseKeypoint F → PoseKeypoint F → Result F
  joint_angle first vertex third =
      let fl = m.plane.num in
      let ax = fl.sub first.x vertex.x in
      let ay = fl.sub first.y vertex.y in
      let bx = fl.sub third.x vertex.x in
      let by = fl.sub third.y vertex.y in
      let first_length = m.hypot ax ay in
      let third_length = m.hypot bx by in
      if m.plane.eq first_length fl.zero || m.plane.eq third_length fl.zero
      then ok m.straight_angle
      else (divide m.plane (fl.add (fl.mul ax bx) (fl.mul ay by)) (fl.mul first_length third_length)
          >>= λ cosine.
              ok (m.degrees (m.acos (greatest fl (fl.neg fl.one) (least fl fl.one cosine)))))

  module _ (py : Str) (e : ErgonomicsEngine F) where
    -- `_visible`
    unfoldable pub visible : PersonPose F → CocoKeypoint → Result (Option (PoseKeypoint F))
    visible pose name = do
      k ← or_raise (keypoint pose name) index_error
      ok (if m.plane.num.le e.keypoint_threshold k.confidence then some k else none)

    -- the point between two visible ones
    abbrev pub between :
        Option (PoseKeypoint F) → Option (PoseKeypoint F) → Result (Option (PoseKeypoint F))
    between none right = ok none
    between (some left) none = ok none
    between (some left) (some right) = do
      k ← keypoint_init m.plane.num (record {
        x = m.plane.num.div (m.plane.num.add left.x right.x) m.two;
        y = m.plane.num.div (m.plane.num.add left.y right.y) m.two;
        confidence = least m.plane.num left.confidence right.confidence;
      })
      ok (some k)

    -- `_midpoint`
    unfoldable pub midpoint :
        PersonPose F → CocoKeypoint → CocoKeypoint → Result (Option (PoseKeypoint F))
    midpoint pose first second = do
      left ← visible pose first
      right ← visible pose second
      between left right

    -- what one of the three screenings adds: its violations, and whether it saw the points it needs
    abbrev pub Screening : Type 0
    Screening = Result (List SafetyViolation × Bool)

    abbrev pub one_violation : Text → Text → SafetyAlertSeverity → Result (List SafetyViolation)
    one_violation key summary severity = do
      v ← violation_init py (posture_violation key summary severity)
      ok (v ∷ [])

    abbrev pub trunk_of : Option (PoseKeypoint F) → Option (PoseKeypoint F) → Screening
    trunk_of none hips = ok ([], false)
    trunk_of (some shoulders) none = ok ([], false)
    trunk_of (some shoulders) (some hips) =
        let trunk_angle = angle_from_vertical hips shoulders in
        if m.plane.num.le e.trunk_warning trunk_angle
        then (one_violation (codes "ergonomics:trunk_inclination")
              (codes "Risco ergonômico: tronco inclinado "
                ++ m.round_text trunk_angle
                ++ degree_sign
                ++ codes " em relação à vertical")
              (if m.plane.num.le e.trunk_critical trunk_angle then critical else warning)
            >>= λ vs. ok (vs, true))
        else ok ([], true)

    -- the trunk, in `_evaluate_pose`
    unfoldable pub trunk : PersonPose F → Screening
    trunk pose = do
      shoulders ← midpoint pose left_shoulder right_shoulder
      hips ← midpoint pose left_hip right_hip
      trunk_of shoulders hips

    -- whether both points are seen, and whether the wrist is above the shoulder
    abbrev pub arm_of : Option (PoseKeypoint F) → Option (PoseKeypoint F) → Bool × Bool
    arm_of none wrist = (false, false)
    arm_of (some shoulder) none = (false, false)
    arm_of (some shoulder) (some wrist) = (true, m.plane.num.lt wrist.y shoulder.y)

    abbrev pub arm : PersonPose F → CocoKeypoint → CocoKeypoint → Result (Bool × Bool)
    arm pose shoulder_id wrist_id = do
      shoulder ← visible pose shoulder_id
      wrist ← visible pose wrist_id
      ok (arm_of shoulder wrist)

    -- the violation of the arms that are overhead
    abbrev pub overhead_violation : Bool → Bool → Result (List SafetyViolation)
    overhead_violation false false = ok []
    overhead_violation true true =
        one_violation (codes "ergonomics:overhead_reach")
          (codes "Risco ergonômico: os dois braços acima da linha dos ombros") critical
    overhead_violation true false =
        one_violation (codes "ergonomics:overhead_reach")
          (codes "Risco ergonômico: o braço esquerdo acima da linha dos ombros") warning
    overhead_violation false true =
        one_violation (codes "ergonomics:overhead_reach")
          (codes "Risco ergonômico: o braço direito acima da linha dos ombros") warning

    -- the overhead reach
    unfoldable pub overhead : PersonPose F → Screening
    overhead pose = if not e.overhead_reach_enabled then ok ([], false) else do
      (left_seen, left_up) ← arm pose left_shoulder left_wrist
      (right_seen, right_up) ← arm pose right_shoulder right_wrist
      vs ← overhead_violation left_up right_up
      ok (vs, left_seen || right_seen)

    abbrev pub leg_of :
        Option (PoseKeypoint F)
        → Option (PoseKeypoint F)
        → Option (PoseKeypoint F)
        → Result (List F)
    leg_of (some hip) (some knee) (some ankle) = do
      angle ← joint_angle hip knee ankle
      ok (angle ∷ [])
    leg_of _ _ _ = ok []

    -- the angle of a leg whose points are seen
    abbrev pub leg : PersonPose F → CocoKeypoint → CocoKeypoint → CocoKeypoint → Result (List F)
    leg pose hip_id knee_id ankle_id = do
      hip ← visible pose hip_id
      knee ← visible pose knee_id
      ankle ← visible pose ankle_id
      leg_of hip knee ankle

    -- `min` of a sequence after its first entry
    abbrev pub minimum_from : F → List F → F
    minimum_from best [] = best
    minimum_from best (x ∷ xs) = minimum_from (least m.plane.num best x) xs

    abbrev pub knees_of : List F → Screening
    knees_of [] = ok ([], false)
    knees_of (x ∷ xs) =
        let minimum_angle = minimum_from x xs in
        if m.plane.num.le minimum_angle e.knee_warning
        then (one_violation (codes "ergonomics:deep_knee_flexion")
              (codes "Risco ergonômico: flexão acentuada dos joelhos ("
                ++ m.round_text minimum_angle
                ++ degree_sign
                ++ codes ")")
              (if m.plane.num.le minimum_angle e.knee_critical then critical else warning)
            >>= λ vs. ok (vs, true))
        else ok ([], true)

    -- the knees
    unfoldable pub knees : PersonPose F → Screening
    knees pose = if not e.knee_flexion_enabled then ok ([], false) else do
      left ← leg pose left_hip left_knee left_ankle
      right ← leg pose right_hip right_knee right_ankle
      knees_of (left ++ right)

    -- `_evaluate_pose`
    unfoldable pub evaluate_pose : PersonPose F → Screening
    evaluate_pose pose = do
      (trunk_violations, trunk_seen) ← trunk pose
      (arm_violations, arms_seen) ← overhead pose
      (knee_violations, knees_seen) ← knees pose
      ok (
        trunk_violations ++ arm_violations ++ knee_violations,
        trunk_seen || arms_seen || knees_seen,
      )
