-- ===== src/Vision/Tracking/Added.antt =====
-- The new tracks, the order of the tracks and their snapshots in `update` of
-- 2identify_operador/app/vision/ppe/tracking.py.
use identify.Base.{
  ℕ, ◌+◌, ◌≤◌, ◌<◌, ◌==◌, ◌≡◌, refl, sym, true, false, List, [], ◌∷◌, ◌++◌, map, any, arith, All,
  All-imp, All-append, ltb, leb, Bool-cases, inl, inr,
}
use mathlib.Core.Path.{subst}
use identify.Base.Result.{ok}
use identify.Base.Sort.{sorted, insert_sorted}
use identify.Domain.WorkSession.{unique}
use identify.Vision.Tracking.Defs.{PpeDetection, MutableTrack, Matches, has_index}
use identify.Vision.Tracking.Tracker.{snapshot_init, snapshots, snapshot_of, track_lt, add_tracks}
use identify.Vision.Tracking.Ages.{IsAged, Rising}

module _ {F : Type 0} where
  abbrev ids_of : ℕ → List (ℕ × MutableTrack F) → List ℕ
  ids_of minimum es = map (λ s. s.track_id) (map (snapshot_of minimum) (map (λ x. x.1) es))

  -- a track that a batch begins, when the identifiers below `first` have been issued
  abbrev pub IsNew : ℕ → ℕ × MutableTrack F → Type 0
  IsNew first e =
      (first ≤ e.0) × (e.1.age_batches ≡ 1) × (e.1.hit_count ≡ 1) × (e.1.missed_batches ≡ 0)

  module _ (most : ℕ) where
    pub IsAged-later :
        (n m : ℕ) → n ≤ m → (e : ℕ × MutableTrack F) → IsAged most n e → IsAged most m e
    IsAged-later n m le e h = record {
      key = h.key;
      positive = h.positive;
      issued = omega (arith, h.issued, le);
      hits = h.hits;
      aged = h.aged;
      seen = h.seen;
      kept = h.kept;
    }

    -- The loop over the detections without a match issues new identifiers, in their order.
    pub add_tracks_lem :
        (matches : Matches) (detections : List (ℕ × PpeDetection F)) (next : ℕ)
        → 1 ≤ next
        → (next ≤ (add_tracks matches detections next).1)
          × All
              (IsAged most (add_tracks matches detections next).1)
              (add_tracks matches detections next).0
          × All (λ x. next ≤ x.0) (add_tracks matches detections next).0
          × Rising (add_tracks matches detections next).0
    unfolding add_tracks
    add_tracks_lem matches [] next h = (omega arith, tt, tt, tt)
    add_tracks_lem matches ((i, d) ∷ detections) next h = elim (Bool-cases (has_index i matches)) [
      | inl matched ↦ rw matched (add_tracks_lem matches detections next h)
      | inr new ↦
          let (below, aged, above, rising) =
            add_tracks_lem matches detections (next + 1) (omega (arith, h)) in
          rw new (
            omega (arith, below),
            (
              record {
                key = refl;
                positive = h;
                issued = omega (arith, below);
                hits = omega arith;
                aged = omega arith;
                seen = omega arith;
                kept = omega arith;
              },
              aged,
            ),
            (
              omega arith,
              All-imp (λ x. next + 1 ≤ x.0) (λ x. next ≤ x.0) (λ x k. omega (arith, k)) _ above,
            ),
            (
              All-imp (λ x. next + 1 ≤ x.0) (λ x. next < x.0) (λ x k. omega (arith, k)) _ above,
              rising,
            ),
          )
    ]

    -- The new tracks begin with one hit, under identifiers from the next one on.
    pub add_tracks-IsNew :
        (matches : Matches) (detections : List (ℕ × PpeDetection F)) (first next : ℕ)
        → first ≤ next
        → All (IsNew first) (add_tracks matches detections next).0
    unfolding add_tracks
    add_tracks-IsNew matches [] first next h = tt
    add_tracks-IsNew matches ((i, d) ∷ detections) first next h =
        elim (Bool-cases (has_index i matches)) [
          | inl matched ↦ rw matched (add_tracks-IsNew matches detections first next h)
          | inr new ↦ rw new (
            (h, refl, refl, refl),
            add_tracks-IsNew matches detections first (next + 1) (omega arith),
          )
        ]

    -- Tracks under identifiers that were issued stand before new ones.
    pub Rising-append :
        (next : ℕ) (xs ys : List (ℕ × MutableTrack F))
        → Rising xs
        → All (IsAged most next) xs
        → Rising ys
        → All (λ y. next ≤ y.0) ys
        → Rising (xs ++ ys)
    Rising-append next [] ys r h s k = s
    Rising-append next (x ∷ xs) ys r h s k =
        let issued : x.0 < next = h.0.issued in
        (
          All-append (λ y. x.0 < y.0) xs ys r.0
              (All-imp (λ y. next ≤ y.0) (λ y. x.0 < y.0) (λ y l. omega (arith, l, issued)) ys k),
          Rising-append next xs ys r.1 h.1 s k,
        )

    module _ (next : ℕ) where
      insert_sorted_first :
          (e : ℕ × MutableTrack F) (es : List (ℕ × MutableTrack F))
          → All (λ x. e.0 < x.0) es
          → All (IsAged most next) (e ∷ es)
          → insert_sorted track_lt e.1 (map (λ x. x.1) es) ≡ map (λ x. x.1) (e ∷ es)
      unfolding insert_sorted
      insert_sorted_first e [] r h = refl
      insert_sorted_first e (x ∷ es) r h =
          let before : ltb x.1.track_id e.1.track_id ≡ false =
            ground (arith, r.0, h.0.key, h.1.0.key) in
          rw before refl

      pub sorted-Rising :
          (es : List (ℕ × MutableTrack F))
          → Rising es
          → All (IsAged most next) es
          → sorted track_lt (map (λ x. x.1) es) ≡ map (λ x. x.1) es
      unfolding sorted
      sorted-Rising [] r h = refl
      sorted-Rising (e ∷ es) r h = rw (sorted-Rising es r.1 h.1) (insert_sorted_first e es r.0 h)

      pub snapshots_lem :
          (minimum : ℕ) (es : List (ℕ × MutableTrack F))
          → All (IsAged most next) es
          → snapshots minimum (map (λ x. x.1) es)
            ≡ ok (map (snapshot_of minimum) (map (λ x. x.1) es))
      unfolding snapshots snapshot_init
      snapshots_lem minimum [] h = refl
      snapshots_lem minimum (e ∷ es) h =
          let positive : leb e.1.track_id 0 ≡ false = ground (arith, h.0.key, h.0.positive) in
          let hits : ltb e.1.hit_count 1 ≡ false = ground (arith, h.0.hits) in
          let aged : ltb e.1.age_batches e.1.hit_count ≡ false = ground (arith, h.0.aged) in
          let seen : ltb e.1.missed_batches e.1.age_batches ≡ true = ground (arith, h.0.seen) in
          rw (positive, hits, aged, seen, snapshots_lem minimum es h.1) refl

      unique_above :
          (minimum k : ℕ) (es : List (ℕ × MutableTrack F))
          → All (λ x. k < x.0) es
          → All (IsAged most next) es
          → any (λ y. y == k) (ids_of minimum es) ≡ false
      unique_above minimum k [] r h = refl
      unique_above minimum k (e ∷ es) r h =
          let other : (e.1.track_id == k) ≡ false = ground (arith, r.0, h.0.key) in
          rw (other, unique_above minimum k es r.1 h.1) refl

      pub unique_ids :
          (minimum : ℕ) (es : List (ℕ × MutableTrack F))
          → Rising es
          → All (IsAged most next) es
          → unique (ids_of minimum es) ≡ true
      unique_ids minimum [] r h = refl
      unique_ids minimum (e ∷ es) r h =
          let mine : any (λ y. y == e.1.track_id) (ids_of minimum es) ≡ false =
            subst (λ k. any (λ y. y == k) (ids_of minimum es) ≡ false) (sym h.0.key)
              (unique_above minimum e.0 es r.0 h.1) in
          rw (mine, unique_ids minimum es r.1 h.1) refl
