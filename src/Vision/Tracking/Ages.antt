-- ===== src/Vision/Tracking/Ages.antt =====
-- The two loops of `update` of 2identify_operador/app/vision/ppe/tracking.py.
use identify.Base.{
  ℕ, suc, ◌+◌, ◌≤◌, ◌<◌, ◌==◌, ◌≡◌, refl, sym, ap, ◌∙◌, some, List, [], ◌∷◌, arith, All, All-imp,
  ◌⊎◌, ltb, Bool-cases, Option-cases, inl, inr,
}
use mathlib.Core.Path.{subst}
use identify.Base.Result.{ok}
use identify.Vision.Tracking.Defs.{PpeDetection, MutableTrack, Matches, enumerate}
use identify.Vision.Tracking.Matching.{In}
use identify.Vision.Tracking.Tracker.{match_of, get_elem?, missed, hit, age_tracks}

module _ {F : Type 0} where
  -- The counters of a track that the tracker holds under its identifier.
  pub record IsAged (most next : ℕ) (e : ℕ × MutableTrack F) : Type 0 where
    pub key : e.1.track_id ≡ e.0
    pub positive : 1 ≤ e.0
    pub issued : e.0 < next
    pub hits : 1 ≤ e.1.hit_count
    pub aged : e.1.hit_count ≤ e.1.age_batches
    pub seen : e.1.missed_batches < e.1.age_batches
    pub kept : e.1.missed_batches ≤ most

  -- The identifiers rise.
  abbrev pub Rising : List (ℕ × MutableTrack F) → Type 0
  Rising [] = Unit
  Rising (e ∷ es) = All (λ x. e.0 < x.0) es × Rising es

  -- Every match has its detection.
  abbrev pub HasDetection : List (PpeDetection F) → ℕ × ℕ → Type 0
  HasDetection detections m = (d : PpeDetection F) × (get_elem? detections m.1 ≡ some d)

  In-enumerate :
      (n : ℕ) (detections : List (PpeDetection F)) (i : ℕ) (d : PpeDetection F)
      → In (i, d) (enumerate n detections)
      → (j : ℕ) × (i ≡ n + j) × (get_elem? detections j ≡ some d)
  In-enumerate n [] i d h = absurd h
  In-enumerate n (x ∷ xs) i d h = elim h [
    | inl here ↦ (0, ap (λ p. p.0) here ∙ omega arith, ap some (sym (ap (λ p. p.1) here)))
    | inr there ↦
        let (j, e, found) = In-enumerate (suc n) xs i d there in (suc j, omega (arith, e), found)
  ]

  pub In-HasDetection :
      (detections : List (PpeDetection F)) (m : ℕ × ℕ) (d : PpeDetection F)
      → In (m.1, d) (enumerate 0 detections)
      → HasDetection detections m
  In-HasDetection detections m d h =
      let (j, e, found) = In-enumerate 0 detections m.1 d h in
      let same : m.1 ≡ j = omega (arith, e) in
      (d, subst (λ k. get_elem? detections k ≡ some d) (sym same) found)

  match_of-HasDetection :
      (detections : List (PpeDetection F)) (k i : ℕ) (matches : Matches)
      → All (HasDetection detections) matches
      → match_of k matches ≡ some i
      → HasDetection detections (k, i)
  match_of-HasDetection detections k i [] h e = absurd (ground arith)
  match_of-HasDetection detections k i ((j, l) ∷ matches) h e = elim (Bool-cases (j == k)) [
    | inl here ↦
        let same : l ≡ i = ground arith in
        (h.0.0, subst (λ x. get_elem? detections x ≡ some h.0.0) same h.0.1)
    | inr there ↦ match_of-HasDetection detections k i matches h.1 (ground arith)
  ]

  -- A track of the list goes on under its identifier: it is a batch older, and was hit or missed.
  abbrev pub Continued : List (ℕ × MutableTrack F) → ℕ → ℕ → ℕ → ℕ → Type 0
  Continued tracks id age hits misses =
      (m : MutableTrack F) × In (id, m) tracks
      × (age ≡ m.age_batches + 1)
      × ((hits ≡ m.hit_count) × (misses ≡ m.missed_batches + 1)
          ⊎ (hits ≡ m.hit_count + 1) × (misses ≡ 0))

  abbrev pub GoesOn : List (ℕ × MutableTrack F) → ℕ × MutableTrack F → Type 0
  GoesOn tracks e = Continued tracks e.0 e.1.age_batches e.1.hit_count e.1.missed_batches

  later_GoesOn :
      (t : ℕ × MutableTrack F) (tracks kept : List (ℕ × MutableTrack F))
      → All (GoesOn tracks) kept
      → All (GoesOn (t ∷ tracks)) kept
  later_GoesOn t tracks kept h =
      All-imp (GoesOn tracks) (GoesOn (t ∷ tracks)) (λ e g. (g.0, inr g.1, g.2, g.3)) kept h

  module _ (most next : ℕ) (matches : Matches) (detections : List (PpeDetection F))
      (found : All (HasDetection detections) matches) where
    -- The loop over the tracks raises nothing, keeps the counters in their bounds, keeps what holds
    -- of every identifier from below, and keeps only tracks that were there.
    pub age_tracks_lem :
        (tracks : List (ℕ × MutableTrack F))
        → All (IsAged most next) tracks
        → Rising tracks
        → (kept : List (ℕ × MutableTrack F)) × (age_tracks most matches detections tracks ≡ ok kept)
          × All (IsAged most next) kept
          × Rising kept
          × ((b : ℕ) → All (λ x. b < x.0) tracks → All (λ x. b < x.0) kept)
          × All (GoesOn tracks) kept
    unfolding age_tracks
    age_tracks_lem [] h r = ([], refl, tt, tt, λ b k. tt, tt)
    age_tracks_lem ((k, track) ∷ tracks) h r =
        let (kept, e, aged, rising, above, on) = age_tracks_lem tracks h.1 r.1 in
        elim (Option-cases (match_of k matches)) [
          | inl unmatched ↦ elim (Bool-cases (ltb most (track.missed_batches + 1))) [
            | inl gone ↦ (
              kept,
              ground arith,
              aged,
              rising,
              λ b l. above b l.1,
              later_GoesOn (k, track) tracks kept on,
            )
            | inr stays ↦ (
              (k, missed track) ∷ kept,
              ground arith,
              (
                record {
                  key = h.0.key;
                  positive = h.0.positive;
                  issued = h.0.issued;
                  hits = h.0.hits;
                  aged = omega (arith, h.0.aged);
                  seen = omega (arith, h.0.seen);
                  kept = ground arith;
                },
                aged,
              ),
              (above k r.0, rising),
              λ b l. (l.0, above b l.1),
              ((track, inl refl, refl, inl (refl, refl)), later_GoesOn (k, track) tracks kept on),
            )
          ]
          | inr (i, matched) ↦
              let (d, read) = match_of-HasDetection detections k i matches found matched in
              (
                (k, hit d track) ∷ kept,
                ground arith,
                (
                  record {
                    key = h.0.key;
                    positive = h.0.positive;
                    issued = h.0.issued;
                    hits = omega arith;
                    aged = omega (arith, h.0.aged);
                    seen = omega arith;
                    kept = omega arith;
                  },
                  aged,
                ),
                (above k r.0, rising),
                λ b l. (l.0, above b l.1),
                ((track, inl refl, refl, inr (refl, refl)), later_GoesOn (k, track) tracks kept on),
              )
        ]
