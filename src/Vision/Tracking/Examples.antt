-- ===== src/Vision/Tracking/Examples.antt =====
-- One track and two boxes of 2identify_operador/app/vision/ppe/tracking.py, on whole pixels, with
-- overlaps that are rounded down.
use Prim.Native.Nat.{◌/◌}
use identify.Base.{
  ℕ, ◌+◌, ◌-◌, ◌*◌, ◌≡◌, ◌||◌, refl, true, List, [], ◌∷◌, inl, All, codes, ltb, leb, text_eq, ◌≤◌,
  map, arith,
}
use identify.Base.Result.{ok}
use identify.Domain.WorkSession.{unique}
use identify.Vision.Tracking.Tracker.{
  PpeDetectionBatch, PpeTrackingBatch, PpeDetectionTracker, detection_batch_init, update,
}
use identify.Vision.Tracking.Sound.{IsFresh, IsSound, IsBounded, update-IsSound}
use identify.Vision.Tracking.Defs.{
  Arithmetic, PpeDetection, MutableTrack, enumerate, has_track, has_index, intersection_over_union,
  associate,
}
use identify.Vision.Tracking.Greedy.{OneToOne}
use identify.Vision.Tracking.Matching.{IsPair, associate-OneToOne, associate_maximal}

abbrev pixels : Arithmetic ℕ
pixels = record {
  zero = 0;
  one = 1;
  add = λ a b. a + b;
  sub = λ a b. a - b;
  mul = λ a b. a * b;
  div = λ a b. a / b;
  neg = λ a. 1 - a;
  lt = ltb;
  le = leb;
  is_finite = λ a. true;
}

abbrev helmet : ℕ → PpeDetection ℕ
helmet x = record {
  class_id = 0;
  class_name = codes "helmet";
  confidence = 1;
  box = record { x1 = x; y1 = 5; x2 = x + 10; y2 = 15 };
}

abbrev track : MutableTrack ℕ
track = record {
  track_id = 1;
  detection = helmet 5;
  hit_count = 1;
  age_batches = 1;
  missed_batches = 0;
}

abbrev tracks : List (ℕ × MutableTrack ℕ)
tracks = (1, track) ∷ []

abbrev boxes : List (PpeDetection ℕ)
boxes = helmet 5 ∷ helmet 50 ∷ []

associate-OneToOne_example :
    OneToOne (associate pixels 1 tracks boxes)
    × All
        (λ m.
          (known : MutableTrack ℕ) × (seen : PpeDetection ℕ) × IsPair pixels 1 tracks
            (enumerate 0 boxes)
            m
            known
            seen)
        (associate pixels 1 tracks boxes)
associate-OneToOne_example = associate-OneToOne pixels 1 tracks boxes

same_box : IsPair pixels 1 tracks (enumerate 0 boxes) (1, 0) track (helmet 5)
unfolding intersection_over_union text_eq
same_box = record { tracked = inl refl; detected = inl refl; alike = refl }

associate_maximal_example :
    (has_track 1 (associate pixels 1 tracks boxes) || has_index 0 (associate pixels 1 tracks boxes))
    ≡ true
associate_maximal_example = associate_maximal pixels 1 tracks boxes (1, 0) track (helmet 5) same_box

abbrev tracker : PpeDetectionTracker ℕ
tracker = record {
  iou_threshold = 1;
  maximum_missed_batches = 2;
  minimum_confirmation_hits = 2;
  tracks = tracks;
  next_track_id = 2;
  sequence_number = 1;
}

abbrev batch : PpeDetectionBatch ℕ
batch = record {
  detections = boxes;
  frame_width = 640;
  frame_height = 480;
  inference_milliseconds = 30;
}

tracker-IsSound : IsSound tracker
tracker-IsSound = record {
  started = omega arith;
  aged = (
    record {
      key = refl;
      positive = omega arith;
      issued = omega arith;
      hits = omega arith;
      aged = omega arith;
      seen = omega arith;
      kept = omega arith;
    },
    tt,
  );
  rising = (tt, tt);
}

batch_valid : detection_batch_init pixels batch ≡ ok batch
unfolding detection_batch_init
batch_valid = refl

update-IsSound_example :
    (shown : PpeTrackingBatch ℕ) × (after : PpeDetectionTracker ℕ) × (update pixels batch tracker
      ≡ ok (shown, after))
    × IsSound after
    × (2 ≤ after.next_track_id)
    × (shown.sequence_number ≡ 2)
    × All (IsBounded 2 after.next_track_id) shown.tracks
    × (unique (map (λ s. s.track_id) shown.tracks) ≡ true)
    × All (IsFresh tracker) shown.tracks
update-IsSound_example = update-IsSound pixels tracker batch tracker-IsSound batch_valid
