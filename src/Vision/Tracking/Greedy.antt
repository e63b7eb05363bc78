-- ===== src/Vision/Tracking/Greedy.antt =====
-- The greedy loop of `_associate` of 2identify_operador/app/vision/ppe/tracking.py.
use identify.Base.{
  ℕ, ◌==◌, ==_iff, ◌≡◌, ◌⊎◌, refl, sym, true, false, ◌||◌, List, [], ◌∷◌, ◌++◌, arith, All,
  All-append, any-append, if◌then◌else◌, Bool-cases, inl, inr,
}
use mathlib.Core.Path.{subst}
use identify.Vision.Tracking.Defs.{Candidate, Matches, has_track, has_index, assign}

-- No track and no detection is matched twice.
abbrev pub OneToOne : Matches → Type 0
OneToOne [] = Unit
OneToOne (m ∷ ms) = (has_track m.0 ms ≡ false) × (has_index m.1 ms ≡ false) × OneToOne ms

OneToOne-append :
    (ms : Matches) (k i : ℕ)
    → OneToOne ms
    → has_track k ms ≡ false
    → has_index i ms ≡ false
    → OneToOne (ms ++ (k, i) ∷ [])
OneToOne-append [] k i h a b = (refl, refl, tt)
OneToOne-append ((j, l) ∷ ms) k i h a b = (
  ground (arith, any-append (λ m. m.0 == j) ms ((k, i) ∷ []), ==_iff j k, ==_iff k j, h.0),
  ground (arith, any-append (λ m. m.1 == l) ms ((k, i) ∷ []), ==_iff l i, ==_iff i l, h.1),
  OneToOne-append ms k i h.2 (ground arith) (ground arith),
)

module _ {F : Type 0} where
  -- the matches after one candidate
  abbrev assigned : Candidate F → Matches → Matches
  assigned c ms =
      if has_track c.track_id ms || has_index c.detection_index ms
      then ms
      else ms ++ (c.track_id, c.detection_index) ∷ []

  assigned-cases :
      (c : Candidate F) (ms : Matches)
      → (((has_track c.track_id ms || has_index c.detection_index ms) ≡ true)
          × (assigned c ms ≡ ms))
        ⊎ ((has_track c.track_id ms ≡ false)
            × (has_index c.detection_index ms ≡ false)
            × (assigned c ms ≡ ms ++ (c.track_id, c.detection_index) ∷ []))
  assigned-cases c ms = elim (Bool-cases (has_track c.track_id ms)) [
    | inl tracked ↦ inl (ground arith, ground arith)
    | inr untracked ↦ elim (Bool-cases (has_index c.detection_index ms)) [
      | inl indexed ↦ inl (ground arith, ground arith)
      | inr unindexed ↦ inr (untracked, unindexed, ground arith)
    ]
  ]

  assigned-OneToOne : (c : Candidate F) (ms : Matches) → OneToOne ms → OneToOne (assigned c ms)
  assigned-OneToOne c ms h = elim (assigned-cases c ms) [
    | inl (taken, same) ↦ subst OneToOne (sym same) h
    | inr (untracked, unindexed, grown) ↦
        subst OneToOne (sym grown)
          (OneToOne-append ms c.track_id c.detection_index h untracked unindexed)
  ]

  All-assigned :
      (P : ℕ × ℕ → Type 0) (c : Candidate F) (ms : Matches)
      → All P ms
      → P (c.track_id, c.detection_index)
      → All P (assigned c ms)
  All-assigned P c ms h p = elim (assigned-cases c ms) [
    | inl (taken, same) ↦ subst (All P) (sym same) h
    | inr (untracked, unindexed, grown) ↦
        subst (All P) (sym grown) (All-append P ms ((c.track_id, c.detection_index) ∷ []) h (p, tt))
  ]

  -- What is matched stays matched.
  taken_assigned :
      (k i : ℕ) (c : Candidate F) (ms : Matches)
      → (has_track k ms || has_index i ms) ≡ true
      → (has_track k (assigned c ms) || has_index i (assigned c ms)) ≡ true
  taken_assigned k i c ms h = elim (assigned-cases c ms) [
    | inl (taken, same) ↦ subst (λ x. (has_track k x || has_index i x) ≡ true) (sym same) h
    | inr (untracked, unindexed, grown) ↦
        subst (λ x. (has_track k x || has_index i x) ≡ true) (sym grown)
          (ground (
            arith,
            any-append (λ m. m.0 == k) ms ((c.track_id, c.detection_index) ∷ []),
            any-append (λ m. m.1 == i) ms ((c.track_id, c.detection_index) ∷ []),
          ))
  ]

  -- A candidate that has been considered has its track or its detection matched.
  self_assigned :
      (c : Candidate F) (ms : Matches)
      → (has_track c.track_id (assigned c ms) || has_index c.detection_index (assigned c ms)) ≡ true
  self_assigned c ms = elim (assigned-cases c ms) [
    | inl (taken, same) ↦
        subst (λ x. (has_track c.track_id x || has_index c.detection_index x) ≡ true) (sym same)
          taken
    | inr (untracked, unindexed, grown) ↦
        subst (λ x. (has_track c.track_id x || has_index c.detection_index x) ≡ true) (sym grown)
          (ground (
            arith,
            any-append (λ m. m.0 == c.track_id) ms ((c.track_id, c.detection_index) ∷ []),
            (==_iff c.track_id c.track_id).1 refl,
          ))
  ]

  pub assign-OneToOne :
      (cs : List (Candidate F)) (ms : Matches) → OneToOne ms → OneToOne (assign cs ms)
  unfolding assign
  assign-OneToOne [] ms h = h
  assign-OneToOne (c ∷ cs) ms h = assign-OneToOne cs (assigned c ms) (assigned-OneToOne c ms h)

  pub All-assign :
      (P : ℕ × ℕ → Type 0) (cs : List (Candidate F)) (ms : Matches)
      → All P ms
      → All (λ c. P (c.track_id, c.detection_index)) cs
      → All P (assign cs ms)
  unfolding assign
  All-assign P [] ms h k = h
  All-assign P (c ∷ cs) ms h k = All-assign P cs (assigned c ms) (All-assigned P c ms h k.0) k.1

  taken_assign :
      (k i : ℕ) (cs : List (Candidate F)) (ms : Matches)
      → (has_track k ms || has_index i ms) ≡ true
      → (has_track k (assign cs ms) || has_index i (assign cs ms)) ≡ true
  unfolding assign
  taken_assign k i [] ms h = h
  taken_assign k i (c ∷ cs) ms h = taken_assign k i cs (assigned c ms) (taken_assigned k i c ms h)

  pub assign_considers :
      (cs : List (Candidate F)) (ms : Matches)
      → All
          (λ c.
            (has_track c.track_id (assign cs ms) || has_index c.detection_index (assign cs ms))
            ≡ true)
          cs
  unfolding assign
  assign_considers [] ms = tt
  assign_considers (c ∷ cs) ms = (
    taken_assign c.track_id c.detection_index cs (assigned c ms) (self_assigned c ms),
    assign_considers cs (assigned c ms),
  )
