-- ===== src/Vision/Tracking/Sound.antt =====
-- The state that `update` of 2identify_operador/app/vision/ppe/tracking.py keeps, and the batch that
-- it returns.
use identify.Base.{
  ℕ, ◌+◌, ◌≤◌, ◌<◌, ◌≡◌, refl, true, false, not, ◌||◌, List, [], ◌∷◌, ◌++◌, map, arith, All,
  All-imp, All-append, ◌⊎◌, sym, leb, Bool-cases, inl, inr,
}
use mathlib.Core.Path.{subst}
use identify.Base.Result.{ok}
use identify.Domain.WorkSession.{unique}
use identify.Vision.Tracking.Defs.{Arithmetic, PpeDetection, MutableTrack, enumerate, associate}
use identify.Vision.Tracking.Matching.{IsPair, associate-OneToOne}
use identify.Vision.Tracking.Tracker.{
  PpeDetectionBatch, PpeTrackSnapshot, PpeTrackingBatch, PpeDetectionTracker, detection_batch_init,
  tracking_batch_init, update, snapshot_of, add_tracks,
}
use identify.Vision.Tracking.Added.{
  IsAged-later, add_tracks_lem, Rising-append, sorted-Rising, snapshots_lem, unique_ids, IsNew,
  add_tracks-IsNew,
}
use identify.Vision.Tracking.Ages.{
  IsAged, Rising, Continued, GoesOn, HasDetection, In-HasDetection, age_tracks_lem,
}

-- What the tracker keeps: identifiers that were issued, in their order, each with counters in their
-- bounds.
pub record IsSound {F : Type 0} (t : PpeDetectionTracker F) : Type 0 where
  pub started : 1 ≤ t.next_track_id
  pub aged : All (IsAged t.maximum_missed_batches t.next_track_id) t.tracks
  pub rising : Rising t.tracks

-- A snapshot whose counters are in their bounds.
pub record IsBounded {F : Type 0} (most next : ℕ) (s : PpeTrackSnapshot F) : Type 0 where
  pub positive : 1 ≤ s.track_id
  pub issued : s.track_id < next
  pub hits : 1 ≤ s.hit_count
  pub aged : s.hit_count ≤ s.age_batches
  pub kept : s.missed_batches ≤ most

-- A shown track goes on from one of the tracker under its identifier, or it begins with the batch,
-- under an identifier that was not issued before.
abbrev pub IsFresh : {F : Type 0} → PpeDetectionTracker F → PpeTrackSnapshot F → Type 0
IsFresh t s =
    Continued t.tracks s.track_id s.age_batches s.hit_count s.missed_batches
    ⊎ ((t.next_track_id ≤ s.track_id)
        × (s.age_batches ≡ 1)
        × (s.hit_count ≡ 1)
        × (s.missed_batches ≡ 0))

module _ {F : Type 0} (fl : Arithmetic F) where
  shown-IsFresh :
      (t : PpeDetectionTracker F) (most next minimum : ℕ) (es : List (ℕ × MutableTrack F))
      → All (IsAged most next) es
      → All (λ e. GoesOn t.tracks e ⊎ IsNew t.next_track_id e) es
      → All (IsFresh t) (map (snapshot_of minimum) (map (λ x. x.1) es))
  shown-IsFresh t most next minimum [] h p = tt
  shown-IsFresh t most next minimum (e ∷ es) h p = (
    subst
        (λ id.
          Continued t.tracks id e.1.age_batches e.1.hit_count e.1.missed_batches
          ⊎ ((t.next_track_id ≤ id)
              × (e.1.age_batches ≡ 1)
              × (e.1.hit_count ≡ 1)
              × (e.1.missed_batches ≡ 0)))
        (sym h.0.key) p.0,
    shown-IsFresh t most next minimum es h.1 p.1,
  )

  bounded :
      (most next minimum : ℕ) (es : List (ℕ × MutableTrack F))
      → All (IsAged most next) es
      → All (IsBounded most next) (map (snapshot_of minimum) (map (λ x. x.1) es))
  bounded most next minimum [] h = tt
  bounded most next minimum (e ∷ es) h = (
    record {
      positive = omega (arith, h.0.positive, h.0.key);
      issued = omega (arith, h.0.issued, h.0.key);
      hits = h.0.hits;
      aged = h.0.aged;
      kept = h.0.kept;
    },
    bounded most next minimum es h.1,
  )

  matches_found :
      (threshold : F) (tracks : List (ℕ × MutableTrack F)) (detections : List (PpeDetection F))
      → All (HasDetection detections) (associate fl threshold tracks detections)
  matches_found threshold tracks detections =
      All-imp
        (λ m.
          (known : MutableTrack F) × (seen : PpeDetection F) × IsPair fl threshold tracks
            (enumerate 0 detections) m known seen)
        (HasDetection detections) (λ m p. In-HasDetection detections m p.1 p.2.detected)
        (associate fl threshold tracks detections)
        (associate-OneToOne fl threshold tracks detections).1

  -- The batch that `tracking_batch_init` admits, given that its detections were admitted.
  tracking_batch_init_lem :
      (b : PpeDetectionBatch F) (tracks : List (PpeTrackSnapshot F)) (n : ℕ)
      → detection_batch_init fl b ≡ ok b
      → 1 ≤ n
      → unique (map (λ s. s.track_id) tracks) ≡ true
      → tracking_batch_init fl (record {
        tracks = tracks;
        frame_width = b.frame_width;
        frame_height = b.frame_height;
        inference_milliseconds = b.inference_milliseconds;
        sequence_number = n;
      })
        ≡ ok (record {
          tracks = tracks;
          frame_width = b.frame_width;
          frame_height = b.frame_height;
          inference_milliseconds = b.inference_milliseconds;
          sequence_number = n;
        })
  unfolding tracking_batch_init detection_batch_init
  tracking_batch_init_lem b tracks n valid positive distinct =
      elim (Bool-cases (leb b.frame_width 0 || leb b.frame_height 0)) [
        | inl bad ↦ absurd (ground arith)
        | inr frame ↦
            elim (Bool-cases (
              not (fl.is_finite b.inference_milliseconds)
              || fl.lt b.inference_milliseconds fl.zero)) [
                | inl bad ↦ absurd (ground arith)
                | inr time ↦
                    let later : leb n 0 ≡ false = ground (arith, positive) in
                    rw (frame, time, later, distinct) refl
              ]
      ]

  -- For any arithmetic of numbers, a tracker whose identifiers were issued and rise, and whose
  -- counters are in their bounds, takes any admitted batch without a raise and stays so; the batch
  -- that it returns has the next sequence number and distinct tracks, whose identifiers were
  -- issued, whose hits do not exceed their age and whose misses do not exceed the maximum. Each
  -- goes on from a track of the tracker under its identifier, a batch older and with one more hit
  -- or one more miss, or begins with one hit under an identifier that was not issued before, and
  -- the next one to be issued does not decrease.
  pub update-IsSound :
      (t : PpeDetectionTracker F) (b : PpeDetectionBatch F)
      → IsSound t
      → detection_batch_init fl b ≡ ok b
      → (shown : PpeTrackingBatch F) × (after : PpeDetectionTracker F) × (update fl b t
          ≡ ok (shown, after))
        × IsSound after
        × (t.next_track_id ≤ after.next_track_id)
        × (shown.sequence_number ≡ t.sequence_number + 1)
        × All (IsBounded t.maximum_missed_batches after.next_track_id) shown.tracks
        × (unique (map (λ s. s.track_id) shown.tracks) ≡ true)
        × All (IsFresh t) shown.tracks
  unfolding update
  update-IsSound t b h valid =
      let matches = associate fl t.iou_threshold t.tracks b.detections in
      let most = t.maximum_missed_batches in
      let (kept, e, aged, rising, above, on) =
        age_tracks_lem most t.next_track_id matches b.detections
          (matches_found t.iou_threshold t.tracks b.detections) t.tracks h.aged h.rising in
      let (below, young, new, fresh) =
        add_tracks_lem most matches (enumerate 0 b.detections) t.next_track_id h.started in
      let added = (add_tracks matches (enumerate 0 b.detections) t.next_track_id).0 in
      let next = (add_tracks matches (enumerate 0 b.detections) t.next_track_id).1 in
      let tracks = kept ++ added in
      let all_aged : All (IsAged most next) tracks =
        All-append (IsAged most next) kept added
          (All-imp (IsAged most t.next_track_id) (IsAged most next)
            (λ x k. IsAged-later most t.next_track_id next below x k) kept aged)
          young in
      let all_rising : Rising tracks =
        Rising-append most t.next_track_id kept added rising aged fresh new in
      let minimum = t.minimum_confirmation_hits in
      let shown = map (snapshot_of minimum) (map (λ x. x.1) tracks) in
      let distinct = unique_ids most next minimum tracks all_rising all_aged in
      let batch =
        tracking_batch_init_lem b shown (t.sequence_number + 1) valid (omega arith) distinct in
      let result : PpeTrackingBatch F = record {
        tracks = shown;
        frame_width = b.frame_width;
        frame_height = b.frame_height;
        inference_milliseconds = b.inference_milliseconds;
        sequence_number = t.sequence_number + 1;
      } in
      let after : PpeDetectionTracker F = record t {
        tracks = tracks;
        next_track_id = next;
        sequence_number = t.sequence_number + 1;
      } in
      (
        result,
        after,
        rw
            (
              e,
              sorted-Rising most next tracks all_rising all_aged,
              snapshots_lem most next minimum tracks all_aged,
              batch,
            )
            refl,
        record { started = omega (arith, h.started, below); aged = all_aged; rising = all_rising },
        below,
        refl,
        bounded most next minimum tracks all_aged,
        distinct,
        shown-IsFresh t most next minimum tracks all_aged (
            All-append (λ e. GoesOn t.tracks e ⊎ IsNew t.next_track_id e) kept added
              (All-imp (GoesOn t.tracks) (λ e. GoesOn t.tracks e ⊎ IsNew t.next_track_id e)
                (λ e g. inl g) kept on)
              (All-imp (IsNew t.next_track_id) (λ e. GoesOn t.tracks e ⊎ IsNew t.next_track_id e)
                (λ e g. inr g) added
                (add_tracks-IsNew most matches (enumerate 0 b.detections) t.next_track_id
                  t.next_track_id (omega arith)))),
      )
