-- ===== src/Vision/Pose.antt =====
-- 2identify_operador/app/vision/pose/types.py: the poses of a frame.
use identify.Base.{
  ℕ, zero, suc, Bool, not, ◌&&◌, ◌||◌, ◌==◌, Option, none, some, List, [], ◌∷◌, all, length, leb,
}
use identify.Base.Result.{Result, ok, value_error, ◌>>◌, raise_if}
use identify.Vision.Tracking.Defs.{Arithmetic}

pub record PoseKeypoint (F : Type 0) : Type 0 where
  pub x : F
  pub y : F
  pub confidence : F

pub record PersonPose (F : Type 0) : Type 0 where
  pub confidence : F
  pub keypoints : List (PoseKeypoint F)

pub record PoseDetectionBatch (F : Type 0) : Type 0 where
  pub poses : List (PersonPose F)
  pub frame_width : ℕ
  pub frame_height : ℕ
  pub inference_milliseconds : F

-- the members of `CocoKeypoint` that the engines read
pub data CocoKeypoint : Type 0 where
  left_shoulder right_shoulder left_wrist right_wrist : CocoKeypoint
  left_hip right_hip left_knee right_knee left_ankle right_ankle : CocoKeypoint

abbrev pub index_of : CocoKeypoint → ℕ
index_of left_shoulder = 5
index_of right_shoulder = 6
index_of left_wrist = 9
index_of right_wrist = 10
index_of left_hip = 11
index_of right_hip = 12
index_of left_knee = 13
index_of right_knee = 14
index_of left_ankle = 15
index_of right_ankle = 16

abbrev pub keypoint_count : ℕ
keypoint_count = 17

-- `keypoints[index]`
abbrev pub keypoint_at {ℓ} : {A : Type ℓ} → List A → ℕ → Option A
keypoint_at [] n = none
keypoint_at (x ∷ xs) zero = some x
keypoint_at (x ∷ xs) (suc n) = keypoint_at xs n

-- `PersonPose.keypoint`
abbrev pub keypoint : {F : Type 0} → PersonPose F → CocoKeypoint → Option (PoseKeypoint F)
keypoint pose name = keypoint_at pose.keypoints (index_of name)

module _ {F : Type 0} (fl : Arithmetic F) where
  -- the tests of a confidence
  abbrev pub in_unit : F → Bool
  in_unit c = fl.le fl.zero c && fl.le c fl.one

  -- `PoseKeypoint.__post_init__`
  unfoldable pub keypoint_init : PoseKeypoint F → Result (PoseKeypoint F)
  keypoint_init k = do
    raise_if (not (all fl.is_finite (k.x ∷ k.y ∷ k.confidence ∷ []))) value_error
    raise_if (not (in_unit k.confidence)) value_error
    ok k

  -- `PersonPose.__post_init__`
  unfoldable pub pose_init : PersonPose F → Result (PersonPose F)
  pose_init p = do
    raise_if (not (fl.is_finite p.confidence) || not (in_unit p.confidence)) value_error
    raise_if (not (length p.keypoints == keypoint_count)) value_error
    ok p

  -- `PoseDetectionBatch.__post_init__`
  unfoldable pub pose_batch_init : PoseDetectionBatch F → Result (PoseDetectionBatch F)
  pose_batch_init b = do
    raise_if (leb b.frame_width 0 || leb b.frame_height 0) value_error
    raise_if (not (fl.is_finite b.inference_milliseconds) || fl.lt b.inference_milliseconds fl.zero)
        value_error
    ok b
