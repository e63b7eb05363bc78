-- ===== src/Engine/Ergonomics/Merge.antt =====
-- `evaluate` of 2identify_operador/app/engine/ergonomics.py: the violations of a frame, merged over
-- its people.
use identify.Base.{
  ℕ, ◌+◌, ◌≤◌, ◌≡◌, ◌⊎◌, refl, sym, ◌∙◌, Bool, some, List, [], ◌∷◌, map, arith, All, All-imp,
  length, Bool-cases, Option-cases, inl, inr, ltb, if◌then◌else◌, Text, text_eq, text_eq_iff, Str,
}
use mathlib.Core.Path.{subst}
use identify.Base.Dict.{
  Dict, Distinct, lookup, insert, insert-Distinct, lookup-insert, lookup-insert_self, All-insert,
  All-lookup,
}
use identify.Base.Result.{Result, ok, err}
use identify.Domain.Alert.{SafetyViolation}
use identify.Vision.Pose.{PersonPose}
use identify.Engine.Ergonomics.Defs.{
  Trigonometry, ErgonomicsEngine, severity_rank, merge_violation, merge_all, evaluate_pose,
}
use identify.Engine.Ergonomics.Evaluate.{screen_poses, values_at}
use identify.Engine.Ergonomics.Screenings.{IsPosture, evaluate_pose-IsPosture}

-- The dictionary has a violation of the key that is at least as severe.
pub record IsCovered (found : Dict SafetyViolation) (v w : SafetyViolation) : Type 0 where
  pub there : lookup v.subject_key found ≡ some w
  pub severe : severity_rank v.severity ≤ severity_rank w.severity

abbrev pub Covered : Dict SafetyViolation → SafetyViolation → Type 0
Covered found v = (w : SafetyViolation) × IsCovered found v w

-- Keys are those of the violations, which are built ones of this engine.
pub record IsMerged (py : Str) (found : Dict SafetyViolation) : Type 0 where
  pub distinct : Distinct found
  pub postures : All (λ entry. IsPosture py entry.1) found
  pub keys : All (λ entry. entry.0 ≡ entry.1.subject_key) found

insert-keys :
    (v : SafetyViolation) (d : Dict SafetyViolation)
    → All (λ entry. entry.0 ≡ entry.1.subject_key) d
    → All (λ entry. entry.0 ≡ entry.1.subject_key) (insert v.subject_key v d)
insert-keys v [] h = (refl, tt)
insert-keys v ((j, w) ∷ d) h = elim (Bool-cases (text_eq v.subject_key j)) [
  | inl here ↦ rw here (sym ((text_eq_iff v.subject_key j).0 here), h.1)
  | inr there ↦ rw there (h.0, insert-keys v d h.1)
]

merge_violation-IsMerged :
    (py : Str) (v : SafetyViolation) (found : Dict SafetyViolation)
    → IsPosture py v
    → IsMerged py found
    → IsMerged py (merge_violation v found)
unfolding merge_violation
merge_violation-IsMerged py v found p h =
    let written : IsMerged py (insert v.subject_key v found) = record {
      distinct = insert-Distinct v.subject_key v found h.distinct;
      postures = All-insert (IsPosture py) v.subject_key v found h.postures p;
      keys = insert-keys v found h.keys;
    } in
    elim (Option-cases (lookup v.subject_key found)) [
      | inl new ↦ rw (merge_violation, new) written
      | inr (current, known) ↦
          elim (Bool-cases (ltb (severity_rank current.severity) (severity_rank v.severity))) [
            | inl worse ↦ rw (merge_violation, known, worse) written
            | inr milder ↦ rw (merge_violation, known, milder) h
          ]
    ]

-- A merge covers its violation, and uncovers none.
merge_violation-Covered :
    (v : SafetyViolation) (found : Dict SafetyViolation) → Covered (merge_violation v found) v
unfolding merge_violation
merge_violation-Covered v found =
    let written : lookup v.subject_key (insert v.subject_key v found) ≡ some v =
      lookup-insert_self v.subject_key v found in
    elim (Option-cases (lookup v.subject_key found)) [
      | inl new ↦ rw (merge_violation, new) (v, record { there = written; severe = omega arith })
      | inr (current, known) ↦
          elim (Bool-cases (ltb (severity_rank current.severity) (severity_rank v.severity))) [
            | inl worse ↦
                rw (merge_violation, known, worse)
                  (v, record { there = written; severe = omega arith })
            | inr milder ↦
                rw (merge_violation, known, milder)
                  (current, record { there = known; severe = ground arith })
          ]
    ]

merge_violation_keeps :
    (v u : SafetyViolation) (found : Dict SafetyViolation)
    → Covered found u
    → Covered (merge_violation v found) u
unfolding merge_violation
merge_violation_keeps v u found (w, h) =
    let other = lookup-insert u.subject_key v.subject_key v found in
    elim (Bool-cases (text_eq u.subject_key v.subject_key)) [
      | inl alike ↦
          let same : u.subject_key ≡ v.subject_key =
            (text_eq_iff u.subject_key v.subject_key).0 alike in
          let mine : lookup v.subject_key found ≡ some w =
            subst (λ k. lookup k found ≡ some w) same h.there in
          elim (Bool-cases (ltb (severity_rank w.severity) (severity_rank v.severity))) [
            | inl worse ↦
                rw (merge_violation, mine, worse)
                  (v, record { there = rw (other, alike) refl; severe = ground (arith, h.severe) })
            | inr milder ↦ rw (merge_violation, mine, milder) (w, h)
          ]
      | inr apart ↦
          let kept : IsCovered (insert v.subject_key v found) u w = record {
            there = rw (other, apart) h.there;
            severe = h.severe;
          } in
          elim (Option-cases (lookup v.subject_key found)) [
            | inl new ↦ rw (merge_violation, new) (w, kept)
            | inr (current, known) ↦
                elim (Bool-cases
                  (ltb (severity_rank current.severity) (severity_rank v.severity))) [
                    | inl worse ↦ rw (merge_violation, known, worse) (w, kept)
                    | inr milder ↦ rw (merge_violation, known, milder) (w, h)
                  ]
          ]
    ]

merge_all-IsMerged :
    (py : Str) (vs : List SafetyViolation) (found : Dict SafetyViolation)
    → All (IsPosture py) vs
    → IsMerged py found
    → IsMerged py (merge_all vs found)
merge_all-IsMerged py [] found p h = h
merge_all-IsMerged py (v ∷ vs) found p h =
    merge_all-IsMerged py vs (merge_violation v found) p.1
      (merge_violation-IsMerged py v found p.0 h)

merge_all_keeps :
    (vs : List SafetyViolation) (u : SafetyViolation) (found : Dict SafetyViolation)
    → Covered found u
    → Covered (merge_all vs found) u
merge_all_keeps [] u found h = h
merge_all_keeps (v ∷ vs) u found h =
    merge_all_keeps vs u (merge_violation v found) (merge_violation_keeps v u found h)

merge_all-Covered :
    (vs : List SafetyViolation) (found : Dict SafetyViolation)
    → All (Covered (merge_all vs found)) vs
merge_all-Covered [] found = tt
merge_all-Covered (v ∷ vs) found = (
  merge_all_keeps vs v (merge_violation v found) (merge_violation-Covered v found),
  merge_all-Covered vs (merge_violation v found),
)

abbrev pub In : {A : Type 0} → A → List A → Type 0
In x [] = ⊥
In x (y ∷ ys) = (x ≡ y) ⊎ In x ys

pub lookup-All :
    (P : Text → Type 0) (found : Dict SafetyViolation) (k : Text) (w : SafetyViolation)
    → All P (map (λ entry. entry.0) found)
    → lookup k found ≡ some w
    → P k
lookup-All P [] k w h e = absurd (ground arith)
lookup-All P ((j, v) ∷ found) k w h e = elim (Bool-cases (text_eq k j)) [
  | inl here ↦ subst P (sym ((text_eq_iff k j).0 here)) h.0
  | inr there ↦ lookup-All P found k w h.1 (ground arith)
]

pub lookup-key :
    (found : Dict SafetyViolation) (k : Text) (w : SafetyViolation)
    → All (λ entry. entry.0 ≡ entry.1.subject_key) found
    → lookup k found ≡ some w
    → w.subject_key ≡ k
lookup-key [] k w h e = absurd (ground arith)
lookup-key ((j, v) ∷ found) k w h e = elim (Bool-cases (text_eq k j)) [
  | inl here ↦
      let mine : v ≡ w = ground arith in
      subst (λ x. x.subject_key ≡ k) mine (sym h.0 ∙ sym ((text_eq_iff k j).0 here))
  | inr there ↦ lookup-key found k w h.1 (ground arith)
]

abbrev returned_in : Result (List SafetyViolation × Bool) → List SafetyViolation
returned_in (err x) = []
returned_in (ok (vs, seen)) = vs

module _ {F : Type 0} (m : Trigonometry F) (py : Str) (e : ErgonomicsEngine F) where
  -- The screening of the person returns.
  abbrev pub IsScreened : PersonPose F → Type 0
  IsScreened pose =
      (vs : List SafetyViolation) × (seen : Bool) × (evaluate_pose m py e pose ≡ ok (vs, seen))

  -- the violations that the screening of a person returns
  abbrev pub screened : PersonPose F → List SafetyViolation
  screened pose = returned_in (evaluate_pose m py e pose)

  abbrev AreCovered : Dict SafetyViolation → PersonPose F → Type 0
  AreCovered found pose = All (Covered found) (screened pose)

  pub screen_poses_lem :
      (poses : List (PersonPose F)) (found : Dict SafetyViolation) (n : ℕ)
      → All IsScreened poses
      → IsMerged py found
      → (after : Dict SafetyViolation) × (k : ℕ) × (screen_poses m py e poses found n
          ≡ ok (after, k))
        × IsMerged py after
        × (k ≤ n + length poses)
        × ((u : SafetyViolation) → Covered found u → Covered after u)
        × All (AreCovered after) poses
  unfolding screen_poses
  screen_poses_lem [] found n s h = (found, n, refl, h, omega arith, (λ u c. c), tt)
  screen_poses_lem (pose ∷ poses) found n ((vs, seen, returned), s) h =
      let merged =
        merge_all-IsMerged py vs found (evaluate_pose-IsPosture m py e pose vs seen returned) h in
      let (after, k, rest, whole, few, keeps, covered) =
        screen_poses_lem poses (merge_all vs found) (if seen then n + 1 else n) s merged in
      (
        after,
        k,
        rw returned rest,
        whole,
        ground (arith, few),
        (λ u c. keeps u (merge_all_keeps vs u found c)),
        (
          subst (λ r. All (Covered after) (returned_in r)) (sym returned)
              (All-imp (Covered (merge_all vs found)) (Covered after) (λ u c. keeps u c) vs
                (merge_all-Covered vs found)),
          covered,
        ),
      )

  pub values_at_lem :
      (found : Dict SafetyViolation) (keys : List Text)
      → IsMerged py found
      → All (λ k. (w : SafetyViolation) × (lookup k found ≡ some w)) keys
      → (vs : List SafetyViolation) × (values_at m py e found keys ≡ ok vs)
        × (map (λ v. v.subject_key) vs ≡ keys)
        × All (IsPosture py) vs
        × All (λ k. (w : SafetyViolation) → lookup k found ≡ some w → In w vs) keys
  unfolding values_at
  values_at_lem found [] h s = ([], refl, refl, tt, tt)
  values_at_lem found (k ∷ keys) h ((w, there), s) =
      let (vs, rest, keyed, postures, shown) = values_at_lem found keys h s in
      (
        w ∷ vs,
        rw (there, rest) refl,
        rw (lookup-key found k w h.keys there, keyed) refl,
        (All-lookup (IsPosture py) k found h.postures there, postures),
        (
          (λ u again. let same : u ≡ w = ground arith in inl same),
          All-imp (λ j. (u : SafetyViolation) → lookup j found ≡ some u → In u vs)
              (λ j. (u : SafetyViolation) → lookup j found ≡ some u → In u (w ∷ vs))
              (λ j f u again. inr (f u again)) keys shown,
        ),
      )

-- The list has a violation of the key that is at least as severe.
pub record IsReported (vs : List SafetyViolation) (v w : SafetyViolation) : Type 0 where
  pub there : In w vs
  pub alike : w.subject_key ≡ v.subject_key
  pub severe : severity_rank v.severity ≤ severity_rank w.severity
