-- ===== src/Vision/Tracking/Matching.antt =====
-- The matches of `_associate` of 2identify_operador/app/vision/ppe/tracking.py.
use identify.Base.{
  ℕ, ◌≡◌, ◌⊎◌, refl, sym, ap, Bool, true, false, ◌||◌, List, [], ◌∷◌, ◌++◌, arith, All, All-append,
  if◌then◌else◌, inl, inr,
}
use mathlib.Core.Path.{subst}
use identify.Base.Sort.{sorted, All-sorted, All-sorted_inv}
use identify.Vision.Tracking.Defs.{
  Arithmetic, PpeDetection, MutableTrack, has_track, has_index, enumerate, is_candidate,
  track_candidates, candidates, candidate_lt, assign, associate,
}
use identify.Vision.Tracking.Greedy.{OneToOne, assign-OneToOne, All-assign, assign_considers}

module _ {A : Type 0} (P : A → Type 0) where
  All-if :
      (b : Bool) (x : A) (xs : List A)
      → (b ≡ true → P x)
      → All P xs
      → All P (if b then x ∷ xs else xs)
  All-if true x xs h k = (h refl, k)
  All-if false x xs h k = k

  All-if_inv :
      (b : Bool) (x : A) (xs : List A)
      → All P (if b then x ∷ xs else xs)
      → All P xs × (b ≡ true → P x)
  All-if_inv true x xs h = (h.1, λ e. h.0)
  All-if_inv false x xs h = (h, λ e. absurd (ground arith))

  All-append_inv : (xs ys : List A) → All P (xs ++ ys) → All P xs × All P ys
  All-append_inv [] ys h = (tt, h)
  All-append_inv (x ∷ xs) ys h =
      let (first, rest) = All-append_inv xs ys h.1 in ((h.0, first), rest)

abbrev pub In : {A : Type 0} → A → List A → Type 0
In x [] = ⊥
In x (y ∷ ys) = (x ≡ y) ⊎ In x ys

module _ {F : Type 0} (fl : Arithmetic F) (iou_threshold : F) where
  -- A track and a detection that may be matched: one class, and enough overlap.
  pub record IsPair (tracks : List (ℕ × MutableTrack F)) (detections : List (ℕ × PpeDetection F))
      (m : ℕ × ℕ) (track : MutableTrack F) (seen : PpeDetection F) : Type 0 where
    pub tracked : In (m.0, track) tracks
    pub detected : In (m.1, seen) detections
    pub alike : is_candidate fl iou_threshold track.detection seen ≡ true

  module _ (tracks : List (ℕ × MutableTrack F)) (detections : List (ℕ × PpeDetection F)) where
    abbrev Paired : ℕ × ℕ → Type 0
    Paired m =
        (track : MutableTrack F) × (seen : PpeDetection F) × IsPair tracks detections m track seen

    track_candidates-Paired :
        (k : ℕ) (track : MutableTrack F) (rest : List (ℕ × PpeDetection F))
        → In (k, track) tracks
        → ((d : ℕ × PpeDetection F) → In d rest → In d detections)
        → All
            (λ c. Paired (c.track_id, c.detection_index))
            (track_candidates fl iou_threshold k track.detection rest)
    unfolding track_candidates
    track_candidates-Paired k track [] known sub = tt
    track_candidates-Paired k track ((i, seen) ∷ rest) known sub =
        All-if (λ c. Paired (c.track_id, c.detection_index))
          (is_candidate fl iou_threshold track.detection seen) _ _
          (λ alike. (
            track,
            seen,
            record { tracked = known; detected = sub (i, seen) (inl refl); alike = alike },
          ))
          (track_candidates-Paired k track rest known (λ d h. sub d (inr h)))

    candidates-Paired :
        (some_tracks : List (ℕ × MutableTrack F))
        → ((t : ℕ × MutableTrack F) → In t some_tracks → In t tracks)
        → All
            (λ c. Paired (c.track_id, c.detection_index))
            (candidates fl iou_threshold some_tracks detections)
    unfolding candidates
    candidates-Paired [] sub = tt
    candidates-Paired ((k, track) ∷ rest) sub =
        All-append (λ c. Paired (c.track_id, c.detection_index))
          (track_candidates fl iou_threshold k track.detection detections)
          (candidates fl iou_threshold rest detections)
          (track_candidates-Paired k track detections (sub (k, track) (inl refl)) (λ d h. h))
          (candidates-Paired rest (λ t h. sub t (inr h)))

  -- What holds of every candidate holds of every pair that passes the tests.
  track_candidates_all :
      (P : ℕ × ℕ → Type 0) (k i : ℕ) (known seen : PpeDetection F)
      (rest : List (ℕ × PpeDetection F))
      → All
          (λ c. P (c.track_id, c.detection_index))
          (track_candidates fl iou_threshold k known rest)
      → In (i, seen) rest
      → is_candidate fl iou_threshold known seen ≡ true
      → P (k, i)
  unfolding track_candidates
  track_candidates_all P k i known seen [] h there alike = absurd there
  track_candidates_all P k i known seen ((j, other) ∷ rest) h there alike =
      let (others, here) =
        All-if_inv (λ c. P (c.track_id, c.detection_index))
          (is_candidate fl iou_threshold known other) _ _ h in
      elim there [
        | inl same ↦
            let same_index : i ≡ j = ap (λ d. d.0) same in
            let same_seen : seen ≡ other = ap (λ d. d.1) same in
            subst (λ n. P (k, n)) (sym same_index)
              (here (subst (λ d. is_candidate fl iou_threshold known d ≡ true) same_seen alike))
        | inr later ↦ track_candidates_all P k i known seen rest others later alike
      ]

  candidates_all :
      (P : ℕ × ℕ → Type 0) (k i : ℕ) (track : MutableTrack F) (seen : PpeDetection F)
      (tracks : List (ℕ × MutableTrack F)) (detections : List (ℕ × PpeDetection F))
      → All (λ c. P (c.track_id, c.detection_index)) (candidates fl iou_threshold tracks detections)
      → In (k, track) tracks
      → In (i, seen) detections
      → is_candidate fl iou_threshold track.detection seen ≡ true
      → P (k, i)
  unfolding candidates
  candidates_all P k i track seen [] detections h known there alike = absurd known
  candidates_all P k i track seen ((j, other) ∷ tracks) detections h known there alike =
      let (first, rest) =
        All-append_inv (λ c. P (c.track_id, c.detection_index))
          (track_candidates fl iou_threshold j other.detection detections)
          (candidates fl iou_threshold tracks detections) h in
      elim known [
        | inl same ↦
            let same_id : k ≡ j = ap (λ t. t.0) same in
            let same_track : track ≡ other = ap (λ t. t.1) same in
            subst (λ n. P (n, i)) (sym same_id)
              (track_candidates_all P j i other.detection seen detections first there (
                subst (λ t. is_candidate fl iou_threshold t.detection seen ≡ true) same_track
                  alike))
        | inr later ↦ candidates_all P k i track seen tracks detections rest later there alike
      ]

  -- For any arithmetic of numbers, the association matches no track and no detection twice, and
  -- only a track with a detection of its class whose overlap reaches the threshold.
  pub associate-OneToOne :
      (tracks : List (ℕ × MutableTrack F)) (detections : List (PpeDetection F))
      → OneToOne (associate fl iou_threshold tracks detections)
        × All
            (λ m.
              (track : MutableTrack F) × (seen : PpeDetection F) × IsPair tracks
                (enumerate 0 detections)
                m
                track
                seen)
            (associate fl iou_threshold tracks detections)
  unfolding associate
  associate-OneToOne tracks detections =
      let found = candidates fl iou_threshold tracks (enumerate 0 detections) in
      let ordered = sorted (candidate_lt fl) found in
      (
        assign-OneToOne ordered [] tt,
        All-assign (Paired tracks (enumerate 0 detections)) ordered [] tt (
            All-sorted (candidate_lt fl)
              (λ c. Paired tracks (enumerate 0 detections) (c.track_id, c.detection_index)) found
              (candidates-Paired tracks (enumerate 0 detections) tracks (λ t h. h))),
      )

  -- For any arithmetic of numbers, a track and a detection of its class whose overlap reaches the
  -- threshold do not both stay unmatched by the association.
  pub associate_maximal :
      (tracks : List (ℕ × MutableTrack F)) (detections : List (PpeDetection F)) (m : ℕ × ℕ)
      (track : MutableTrack F) (seen : PpeDetection F)
      → IsPair tracks (enumerate 0 detections) m track seen
      → (has_track m.0 (associate fl iou_threshold tracks detections)
          || has_index m.1 (associate fl iou_threshold tracks detections))
        ≡ true
  unfolding associate
  associate_maximal tracks detections m track seen pair =
      let found = candidates fl iou_threshold tracks (enumerate 0 detections) in
      let ordered = sorted (candidate_lt fl) found in
      candidates_all
        (λ n. (has_track n.0 (assign ordered []) || has_index n.1 (assign ordered [])) ≡ true) m.0
        m.1 track seen tracks (enumerate 0 detections)
        (All-sorted_inv (candidate_lt fl)
          (λ c.
            (has_track c.track_id (assign ordered [])
              || has_index c.detection_index (assign ordered []))
            ≡ true)
          found (assign_considers ordered []))
        pair.tracked pair.detected pair.alike
