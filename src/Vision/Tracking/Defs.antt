-- ===== src/Vision/Tracking/Defs.antt =====
-- `_associate` and `_intersection_over_union` of 2identify_operador/app/vision/ppe/tracking.py, with
-- the detections of 2identify_operador/app/vision/ppe/types.py. The floating-point operations are
-- those of `F`; a test for finite numbers is `is_finite`.
use identify.Base.{
  ℕ, suc, ◌==◌, Bool, not, ◌&&◌, ◌||◌, List, [], ◌∷◌, ◌++◌, all, any, ltb, if◌then◌else◌, is_empty,
  Text, text_eq, Str, normalize,
}
use identify.Base.Result.{Result, ok, value_error, ◌>>◌, raise_if}
use identify.Base.Sort.{sorted}

-- `float`
pub record Arithmetic (F : Type 0) : Type 0 where
  pub zero : F
  pub one : F
  pub add : F → F → F
  pub sub : F → F → F
  pub mul : F → F → F
  pub div : F → F → F
  pub neg : F → F
  pub lt : F → F → Bool
  pub le : F → F → Bool
  pub is_finite : F → Bool

pub record DetectionBox (F : Type 0) : Type 0 where
  pub x1 : F
  pub y1 : F
  pub x2 : F
  pub y2 : F

pub record PpeDetection (F : Type 0) : Type 0 where
  pub class_id : ℕ
  pub class_name : Text
  pub confidence : F
  pub box : DetectionBox F

-- `_MutableTrack`
pub record MutableTrack (F : Type 0) : Type 0 where
  pub track_id : ℕ
  pub detection : PpeDetection F
  pub hit_count : ℕ
  pub age_batches : ℕ
  pub missed_batches : ℕ

-- an entry of `candidates`
pub record Candidate (F : Type 0) : Type 0 where
  pub negative_overlap : F
  pub track_id : ℕ
  pub detection_index : ℕ

-- `enumerate`, from a first index on
abbrev pub enumerate {ℓ} : {A : Type ℓ} → ℕ → List A → List (ℕ × A)
enumerate n [] = []
enumerate n (x ∷ xs) = (n, x) ∷ enumerate (suc n) xs

-- the matches found, in their order: a track and the index of its detection
abbrev pub Matches : Type 0
Matches = List (ℕ × ℕ)

abbrev pub has_track : ℕ → Matches → Bool
has_track track_id matches = any (λ m. m.0 == track_id) matches

abbrev pub has_index : ℕ → Matches → Bool
has_index index matches = any (λ m. m.1 == index) matches

module _ {F : Type 0} where
  -- the loop over the sorted candidates; the set of assigned detections is that of the matches
  unfoldable pub assign : List (Candidate F) → Matches → Matches
  assign [] matches = matches
  assign (c ∷ cs) matches = assign cs (
      if has_track c.track_id matches || has_index c.detection_index matches
      then matches
      else matches ++ (c.track_id, c.detection_index) ∷ [])

module _ {F : Type 0} (fl : Arithmetic F) where
  -- `DetectionBox.__post_init__`
  unfoldable pub box_init : DetectionBox F → Result (DetectionBox F)
  box_init b = do
    raise_if (not (all fl.is_finite (b.x1 ∷ b.y1 ∷ b.x2 ∷ b.y2 ∷ []))) value_error
    raise_if (fl.lt b.x2 b.x1 || fl.lt b.y2 b.y1) value_error
    ok b

  -- `PpeDetection.__post_init__`; a negative class is no natural number
  unfoldable pub detection_init : Str → PpeDetection F → Result (PpeDetection F)
  detection_init py d = do
    raise_if (is_empty (normalize py d.class_name)) value_error
    raise_if (not (fl.le fl.zero d.confidence && fl.le d.confidence fl.one)) value_error
    ok (record d { class_name = normalize py d.class_name })

  -- `min` and `max` of two numbers
  abbrev pub least : F → F → F
  least a b = if fl.lt b a then b else a

  abbrev pub greatest : F → F → F
  greatest a b = if fl.lt a b then b else a

  -- `_intersection_over_union`
  unfoldable pub intersection_over_union : DetectionBox F → DetectionBox F → F
  intersection_over_union first second =
      let intersection_width =
        greatest fl.zero (fl.sub (least first.x2 second.x2) (greatest first.x1 second.x1)) in
      let intersection_height =
        greatest fl.zero (fl.sub (least first.y2 second.y2) (greatest first.y1 second.y1)) in
      let intersection = fl.mul intersection_width intersection_height in
      let first_area =
        fl.mul (greatest fl.zero (fl.sub first.x2 first.x1))
          (greatest fl.zero (fl.sub first.y2 first.y1)) in
      let second_area =
        fl.mul (greatest fl.zero (fl.sub second.x2 second.x1))
          (greatest fl.zero (fl.sub second.y2 second.y1)) in
      let union = fl.sub (fl.add first_area second_area) intersection in
      if fl.lt fl.zero union then fl.div intersection union else fl.zero

  module _ (iou_threshold : F) where
    -- the tests of a pair in `_associate`
    abbrev pub is_candidate : PpeDetection F → PpeDetection F → Bool
    is_candidate known seen =
        text_eq seen.class_name known.class_name
        && fl.le iou_threshold (intersection_over_union known.box seen.box)

    -- the inner loop over the detections
    unfoldable pub track_candidates :
        ℕ → PpeDetection F → List (ℕ × PpeDetection F) → List (Candidate F)
    track_candidates track_id known [] = []
    track_candidates track_id known ((i, seen) ∷ rest) =
        let others = track_candidates track_id known rest in
        if is_candidate known seen
        then (record {
          negative_overlap = fl.neg (intersection_over_union known.box seen.box);
          track_id = track_id;
          detection_index = i;
        })
          ∷ others
        else others

    -- the outer loop over the tracks
    unfoldable pub candidates :
        List (ℕ × MutableTrack F) → List (ℕ × PpeDetection F) → List (Candidate F)
    candidates [] detections = []
    candidates ((track_id, track) ∷ tracks) detections =
        track_candidates track_id track.detection detections ++ candidates tracks detections

  -- the order of the tuples
  unfoldable pub candidate_lt : Candidate F → Candidate F → Bool
  candidate_lt a b =
      fl.lt a.negative_overlap b.negative_overlap
      || (not (fl.lt b.negative_overlap a.negative_overlap)
          && (ltb a.track_id b.track_id
              || ((a.track_id == b.track_id) && ltb a.detection_index b.detection_index)))

  -- `_associate`
  unfoldable pub associate : F → List (ℕ × MutableTrack F) → List (PpeDetection F) → Matches
  associate iou_threshold tracks detections =
      assign (sorted candidate_lt (candidates iou_threshold tracks (enumerate 0 detections))) []
