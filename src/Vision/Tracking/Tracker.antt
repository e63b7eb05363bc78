-- ===== src/Vision/Tracking/Tracker.antt =====
-- The class `PpeDetectionTracker` of 2identify_operador/app/vision/ppe/tracking.py, less its
-- association, and the batches that it takes and returns. The dictionary of tracks is the list of its
-- items in their order. A call that raises is given without the tracks that it leaves.
use identify.Base.{
  ℕ, zero, suc, ◌+◌, ◌==◌, Bool, not, ◌&&◌, ◌||◌, Option, none, some, List, [], ◌∷◌, ◌++◌, map,
  keep, ltb, leb, if◌then◌else◌,
}
use identify.Base.Result.{Result, ok, value_error, key_error, ◌>>=◌, ◌>>◌, raise_if, or_raise}
use identify.Base.Sort.{sorted}
use identify.Domain.WorkSession.{unique}
use identify.Vision.Tracking.Defs.{
  Arithmetic, PpeDetection, MutableTrack, Matches, has_index, enumerate, associate,
}

pub record PpeDetectionBatch (F : Type 0) : Type 0 where
  pub detections : List (PpeDetection F)
  pub frame_width : ℕ
  pub frame_height : ℕ
  pub inference_milliseconds : F

pub record PpeTrackSnapshot (F : Type 0) : Type 0 where
  pub track_id : ℕ
  pub detection : PpeDetection F
  pub hit_count : ℕ
  pub age_batches : ℕ
  pub missed_batches : ℕ
  pub confirmed : Bool

pub record PpeTrackingBatch (F : Type 0) : Type 0 where
  pub tracks : List (PpeTrackSnapshot F)
  pub frame_width : ℕ
  pub frame_height : ℕ
  pub inference_milliseconds : F
  pub sequence_number : ℕ

pub record PpeDetectionTracker (F : Type 0) : Type 0 where
  pub iou_threshold : F
  pub maximum_missed_batches : ℕ
  pub minimum_confirmation_hits : ℕ
  pub tracks : List (ℕ × MutableTrack F)
  pub next_track_id : ℕ
  pub sequence_number : ℕ

-- `matches.get(track_id)`
abbrev pub match_of : ℕ → Matches → Option ℕ
match_of track_id [] = none
match_of track_id ((k, i) ∷ matches) = if k == track_id then some i else match_of track_id matches

-- `PpeTrackSnapshot.__post_init__`
unfoldable pub snapshot_init : {F : Type 0} → PpeTrackSnapshot F → Result (PpeTrackSnapshot F)
snapshot_init s = do
  raise_if (leb s.track_id 0) value_error
  raise_if (ltb s.hit_count 1 || ltb s.age_batches s.hit_count) value_error
  raise_if (not (ltb s.missed_batches s.age_batches)) value_error
  ok s

module _ {F : Type 0} where
  -- `is_visible`, `visible_tracks` and `confirmed_visible_tracks`
  abbrev pub is_visible : PpeTrackSnapshot F → Bool
  is_visible s = s.missed_batches == 0

  unfoldable pub visible_tracks : PpeTrackingBatch F → List (PpeTrackSnapshot F)
  visible_tracks b = keep is_visible b.tracks

  unfoldable pub confirmed_visible_tracks : PpeTrackingBatch F → List (PpeTrackSnapshot F)
  confirmed_visible_tracks b = keep (λ s. is_visible s && s.confirmed) b.tracks

  -- `reset`
  unfoldable pub reset : PpeDetectionTracker F → PpeDetectionTracker F
  reset t = record t { tracks = []; next_track_id = 1; sequence_number = 0 }

  -- `detections[index]`
  abbrev pub get_elem? : List (PpeDetection F) → ℕ → Option (PpeDetection F)
  get_elem? [] i = none
  get_elem? (d ∷ detections) zero = some d
  get_elem? (d ∷ detections) (suc i) = get_elem? detections i

  abbrev pub missed : MutableTrack F → MutableTrack F
  missed track = record track {
    age_batches = track.age_batches + 1;
    missed_batches = track.missed_batches + 1;
  }

  abbrev pub hit : PpeDetection F → MutableTrack F → MutableTrack F
  hit detection track = record track {
    detection = detection;
    hit_count = track.hit_count + 1;
    age_batches = track.age_batches + 1;
    missed_batches = 0;
  }

  -- the loop over the tracks that there are
  unfoldable pub age_tracks :
      ℕ
      → Matches
      → List (PpeDetection F)
      → List (ℕ × MutableTrack F)
      → Result (List (ℕ × MutableTrack F))
  age_tracks maximum_missed matches detections [] = ok []
  age_tracks maximum_missed matches detections ((k, track) ∷ tracks) =
      let rest = age_tracks maximum_missed matches detections tracks in
      elim (match_of k matches) [
        | none ↦
            if ltb maximum_missed (track.missed_batches + 1)
            then rest
            else (rest >>= λ others. ok ((k, missed track) ∷ others))
        | some i ↦ do
          detection ← or_raise (get_elem? detections i) key_error
          others ← rest
          ok ((k, hit detection track) ∷ others)
      ]

  -- `_MutableTrack(track_id, detection)`
  abbrev pub new_track : ℕ → PpeDetection F → MutableTrack F
  new_track k detection = record {
    track_id = k;
    detection = detection;
    hit_count = 1;
    age_batches = 1;
    missed_batches = 0;
  }

  -- the loop over the detections without a match, and the identifier after it
  unfoldable pub add_tracks :
      Matches → List (ℕ × PpeDetection F) → ℕ → List (ℕ × MutableTrack F) × ℕ
  add_tracks matches [] next = ([], next)
  add_tracks matches ((i, detection) ∷ detections) next =
      let matched = has_index i matches in
      let (others, last) = add_tracks matches detections (if matched then next else next + 1) in
      ((if matched then others else (next, new_track next detection) ∷ others), last)

  abbrev pub track_lt : MutableTrack F → MutableTrack F → Bool
  track_lt a b = ltb a.track_id b.track_id

  abbrev pub snapshot_of : ℕ → MutableTrack F → PpeTrackSnapshot F
  snapshot_of minimum_hits track = record {
    track_id = track.track_id;
    detection = track.detection;
    hit_count = track.hit_count;
    age_batches = track.age_batches;
    missed_batches = track.missed_batches;
    confirmed = leb minimum_hits track.hit_count;
  }

  -- the tuple of snapshots
  unfoldable pub snapshots : ℕ → List (MutableTrack F) → Result (List (PpeTrackSnapshot F))
  snapshots minimum_hits [] = ok []
  snapshots minimum_hits (track ∷ tracks) = do
    s ← snapshot_init (snapshot_of minimum_hits track)
    rest ← snapshots minimum_hits tracks
    ok (s ∷ rest)

module _ {F : Type 0} (fl : Arithmetic F) where
  -- `PpeDetectionBatch.__post_init__`
  unfoldable pub detection_batch_init : PpeDetectionBatch F → Result (PpeDetectionBatch F)
  detection_batch_init b = do
    raise_if (leb b.frame_width 0 || leb b.frame_height 0) value_error
    raise_if (not (fl.is_finite b.inference_milliseconds) || fl.lt b.inference_milliseconds fl.zero)
        value_error
    ok b

  -- `PpeTrackingBatch.__post_init__`
  unfoldable pub tracking_batch_init : PpeTrackingBatch F → Result (PpeTrackingBatch F)
  tracking_batch_init b = do
    raise_if (leb b.frame_width 0 || leb b.frame_height 0) value_error
    raise_if (not (fl.is_finite b.inference_milliseconds) || fl.lt b.inference_milliseconds fl.zero)
        value_error
    raise_if (leb b.sequence_number 0) value_error
    raise_if (not (unique (map (λ s. s.track_id) b.tracks))) value_error
    ok b

  -- `__init__`
  unfoldable pub tracker_init : F → ℕ → ℕ → Result (PpeDetectionTracker F)
  tracker_init iou_threshold maximum_missed_batches minimum_confirmation_hits = do
    raise_if (not (fl.lt fl.zero iou_threshold && fl.le iou_threshold fl.one)) value_error
    raise_if (ltb minimum_confirmation_hits 1) value_error
    ok (record {
      iou_threshold = iou_threshold;
      maximum_missed_batches = maximum_missed_batches;
      minimum_confirmation_hits = minimum_confirmation_hits;
      tracks = [];
      next_track_id = 1;
      sequence_number = 0;
    })

  -- `update`
  unfoldable pub update :
      PpeDetectionBatch F
      → PpeDetectionTracker F
      → Result (PpeTrackingBatch F × PpeDetectionTracker F)
  update batch t = do
    let matches = associate fl t.iou_threshold t.tracks batch.detections
    aged ← age_tracks t.maximum_missed_batches matches batch.detections t.tracks
    let (added, next) = add_tracks matches (enumerate 0 batch.detections) t.next_track_id
    let tracks = aged ++ added
    shown ← snapshots t.minimum_confirmation_hits (sorted track_lt (map (λ e. e.1) tracks))
    result ← tracking_batch_init (record {
      tracks = shown;
      frame_width = batch.frame_width;
      frame_height = batch.frame_height;
      inference_milliseconds = batch.inference_milliseconds;
      sequence_number = t.sequence_number + 1;
    })
    ok (
      result,
      record t { tracks = tracks; next_track_id = next; sequence_number = t.sequence_number + 1 },
    )
