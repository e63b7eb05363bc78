-- ===== src/Engine/Ergonomics/Screenings.antt =====
-- The violations that the three screenings of 2identify_operador/app/engine/ergonomics.py construct.
use identify.Base.{
  ◌≡◌, Bool, true, false, not, ◌||◌, Option, none, some, List, [], ◌∷◌, ◌++◌, arith, All,
  All-append, Bool-cases, inl, inr, if◌then◌else◌, Text, Str,
}
use mathlib.Core.Path.{subst}
use identify.Base.Result.{Result, ok, err, Result-cases, ◌>>=◌}
use identify.Domain.Alert.{SafetyViolation, SafetyAlertSeverity, ergonomic_risk, violation_init}
use identify.Domain.Alert.Laws.{IsViolation, violation_init-IsViolation}
use identify.Vision.Pose.{
  PoseKeypoint, PersonPose, left_shoulder, right_shoulder, left_wrist, right_wrist, left_hip,
  right_hip, left_knee, right_knee, left_ankle, right_ankle,
}
use identify.Engine.Ergonomics.Defs.{
  Trigonometry, ErgonomicsEngine, posture_violation, one_violation, trunk_of, trunk,
  overhead_violation, overhead, knees_of, knees, evaluate_pose, midpoint, arm, leg,
}

-- A built violation of the kind that this engine reports.
pub record IsPosture (py : Str) (v : SafetyViolation) : Type 0 where
  pub built : IsViolation py v
  pub kind : v.violation_type ≡ ergonomic_risk

violation_init-kind :
    (py : Str) (raw : SafetyViolation) {v : SafetyViolation}
    → violation_init py raw ≡ ok v
    → v.violation_type ≡ raw.violation_type
unfolding violation_init
violation_init-kind py raw h = ground arith

-- If a screening returns, its violations are built ones of that kind.
abbrev AllPostures : Str → Result (List SafetyViolation × Bool) → Type 0
AllPostures py r =
    (vs : List SafetyViolation) (seen : Bool) → r ≡ ok (vs, seen) → All (IsPosture py) vs

module _ {F : Type 0} (m : Trigonometry F) (py : Str) (e : ErgonomicsEngine F) where
  one_violation-IsPosture :
      (key summary : Text) (severity : SafetyAlertSeverity) (vs : List SafetyViolation)
      → one_violation m py e key summary severity ≡ ok vs
      → All (IsPosture py) vs
  one_violation-IsPosture key summary severity vs h =
      elim (Result-cases (violation_init py (posture_violation key summary severity))) [
        | inl (x, raised) ↦ absurd (ground arith)
        | inr (v, built) ↦
            let only : v ∷ [] ≡ vs = ground arith in
            subst (All (IsPosture py)) only (
              record {
                built =
                    violation_init-IsViolation py (posture_violation key summary severity) built;
                kind = violation_init-kind py (posture_violation key summary severity) built;
              },
              tt,
            )
      ]

  -- a violation that is only reported under a test
  tested :
      (test : Bool) (key summary : Text) (severity : SafetyAlertSeverity)
      → AllPostures py (
          if test
          then (one_violation m py e key summary severity >>= λ vs. ok (vs, true))
          else ok ([], true))
  tested true key summary severity vs seen h =
      elim (Result-cases (one_violation m py e key summary severity)) [
        | inl (x, raised) ↦ absurd (ground arith)
        | inr (us, returned) ↦
            let same : us ≡ vs = ground arith in
            subst (All (IsPosture py)) same
              (one_violation-IsPosture key summary severity us returned)
      ]
  tested false key summary severity vs seen h =
      let same : [] ≡ vs = ground arith in subst (All (IsPosture py)) same tt

  no_violation : (b : Bool) → AllPostures py (ok ([], b))
  no_violation b vs seen h = let same : [] ≡ vs = ground arith in subst (All (IsPosture py)) same tt

  trunk_of-IsPosture :
      (shoulders hips : Option (PoseKeypoint F)) → AllPostures py (trunk_of m py e shoulders hips)
  trunk_of-IsPosture none hips = no_violation false
  trunk_of-IsPosture (some s) none = no_violation false
  trunk_of-IsPosture (some s) (some h) = tested _ _ _ _

  knees_of-IsPosture : (angles : List F) → AllPostures py (knees_of m py e angles)
  knees_of-IsPosture [] = no_violation false
  knees_of-IsPosture (x ∷ xs) = tested _ _ _ _

  -- A step that returns, and then a screening.
  after_step :
      {A : Type 0} (r : Result A) (f : A → Result (List SafetyViolation × Bool))
      → ((a : A) → AllPostures py (f a))
      → AllPostures py (r >>= f)
  after_step (err x) f h vs seen k = absurd (ground arith)
  after_step (ok a) f h vs seen k = h a vs seen k

  trunk-IsPosture : (pose : PersonPose F) → AllPostures py (trunk m py e pose)
  unfolding trunk
  trunk-IsPosture pose =
      after_step (midpoint m py e pose left_shoulder right_shoulder) _ (λ shoulders.
        after_step (midpoint m py e pose left_hip right_hip) _
          (λ hips. trunk_of-IsPosture shoulders hips))

  with_seen :
      (r : Result (List SafetyViolation)) (b : Bool)
      → ((vs : List SafetyViolation) → r ≡ ok vs → All (IsPosture py) vs)
      → AllPostures py (r >>= λ vs. ok (vs, b))
  with_seen (err x) b h vs seen k = absurd (ground arith)
  with_seen (ok us) b h vs seen k = h vs (ground arith)

  overhead_violation-IsPosture :
      (left right : Bool) (vs : List SafetyViolation)
      → overhead_violation m py e left right ≡ ok vs
      → All (IsPosture py) vs
  overhead_violation-IsPosture false false vs h =
      let same : [] ≡ vs = ground arith in subst (All (IsPosture py)) same tt
  overhead_violation-IsPosture true true vs h = one_violation-IsPosture _ _ _ vs h
  overhead_violation-IsPosture true false vs h = one_violation-IsPosture _ _ _ vs h
  overhead_violation-IsPosture false true vs h = one_violation-IsPosture _ _ _ vs h

  overhead-IsPosture : (pose : PersonPose F) → AllPostures py (overhead m py e pose)
  unfolding overhead
  overhead-IsPosture pose = elim (Bool-cases (not e.overhead_reach_enabled)) [
    | inl off ↦ rw (overhead, off) (no_violation false)
    | inr enabled ↦
        rw (overhead, enabled)
          (after_step (arm m py e pose left_shoulder left_wrist) _ (λ left.
            after_step (arm m py e pose right_shoulder right_wrist) _ (λ right.
              with_seen (overhead_violation m py e left.1 right.1) (left.0 || right.0)
                (overhead_violation-IsPosture left.1 right.1))))
  ]

  knees-IsPosture : (pose : PersonPose F) → AllPostures py (knees m py e pose)
  unfolding knees
  knees-IsPosture pose = elim (Bool-cases (not e.knee_flexion_enabled)) [
    | inl off ↦ rw (knees, off) (no_violation false)
    | inr enabled ↦
        rw (knees, enabled)
          (after_step (leg m py e pose left_hip left_knee left_ankle) _ (λ left.
            after_step (leg m py e pose right_hip right_knee right_ankle) _
              (λ right. knees_of-IsPosture (left ++ right))))
  ]

  pub evaluate_pose-IsPosture :
      (pose : PersonPose F) (vs : List SafetyViolation) (seen : Bool)
      → evaluate_pose m py e pose ≡ ok (vs, seen)
      → All (IsPosture py) vs
  unfolding evaluate_pose
  evaluate_pose-IsPosture pose vs seen h = elim (Result-cases (trunk m py e pose)) [
    | inl (x, raised) ↦ absurd (ground arith)
    | inr ((ts, t), trunk_ok) ↦ elim (Result-cases (overhead m py e pose)) [
      | inl (x, raised) ↦ absurd (ground arith)
      | inr ((os, o), overhead_ok) ↦ elim (Result-cases (knees m py e pose)) [
        | inl (x, raised) ↦ absurd (ground arith)
        | inr ((ks, k), knees_ok) ↦
            let same : ts ++ os ++ ks ≡ vs = ground arith in
            subst (All (IsPosture py)) same (
              All-append (IsPosture py) (ts ++ os) ks
                (All-append (IsPosture py) ts os (trunk-IsPosture pose ts t trunk_ok)
                  (overhead-IsPosture pose os o overhead_ok))
                (knees-IsPosture pose ks k knees_ok))
      ]
    ]
  ]
