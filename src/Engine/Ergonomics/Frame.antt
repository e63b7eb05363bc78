-- ===== src/Engine/Ergonomics/Frame.antt =====
-- The assessment of a frame by 2identify_operador/app/engine/ergonomics.py.
use identify.Base.{
  ◌≤◌, ◌≡◌, refl, sym, some, List, [], map, arith, All, All-imp, length, text_lt, text_lt-asym,
  text_lt-negative, Str,
}
use mathlib.Core.Path.{subst}
use identify.Base.Dict.{lookup}
use identify.Base.Result.{ok}
use identify.Base.Sort.{sorted, All-sorted, All-sorted_inv, IsSorted, sorted-IsSorted}
use identify.Domain.Alert.{SafetyViolation}
use identify.Vision.Pose.{PoseDetectionBatch}
use identify.Engine.Ergonomics.Defs.{Trigonometry, ErgonomicsEngine, ErgonomicAssessment}
use identify.Engine.Ergonomics.Evaluate.{evaluate}
use identify.Engine.Ergonomics.Screenings.{IsPosture}
use identify.Engine.Ergonomics.Merge.{
  Covered, In, IsScreened, screened, IsReported, screen_poses_lem, values_at_lem, lookup-All,
  lookup-key,
}
use identify.Engine.Ergonomics.Keys.{
  AreDistinct, Known, keys-AreDistinct, keys-Known, sorted-AreDistinct,
}

-- The list reports the violation.
abbrev pub Reported : List SafetyViolation → SafetyViolation → Type 0
Reported vs v = (w : SafetyViolation) × IsReported vs v w

module _ {F : Type 0} (m : Trigonometry F) (py : Str) (e : ErgonomicsEngine F) where
  -- If the screening of each person returns, then the evaluation of the frame returns, with built
  -- violations of ergonomic risk whose keys are distinct and sorted; every violation of every
  -- person is reported under its key with at least its severity, and no more people were evaluated
  -- than detected.
  pub evaluate_merges :
      (batch : PoseDetectionBatch F)
      → All (IsScreened m py e) batch.poses
      → (a : ErgonomicAssessment F) × (evaluate m py e batch ≡ ok a)
        × AreDistinct (map (λ v. v.subject_key) a.violations)
        × IsSorted text_lt (map (λ v. v.subject_key) a.violations)
        × All (IsPosture py) a.violations
        × All (λ pose. All (Reported a.violations) (screened m py e pose)) batch.poses
        × (a.evaluated_people ≤ a.detected_people)
  unfolding evaluate
  evaluate_merges batch h =
      let (found, n, screens, merged, few, keeps, covered) =
        screen_poses_lem m py e batch.poses [] 0 h
          (record { distinct = tt; postures = tt; keys = tt }) in
      let keys = map (λ entry. entry.0) found in
      let (vs, valued, keyed, postures, shown) =
        values_at_lem m py e found (sorted text_lt keys) merged
          (All-sorted text_lt (Known found) keys (keys-Known found)) in
      let every =
        All-sorted_inv text_lt (λ k. (w : SafetyViolation) → lookup k found ≡ some w → In w vs) keys
          shown in
      let reported : (v : SafetyViolation) → Covered found v → Reported vs v = λ v c. (
        c.0,
        record {
          there =
              lookup-All (λ k. (w : SafetyViolation) → lookup k found ≡ some w → In w vs) found
                v.subject_key c.0 every c.1.there c.0 c.1.there;
          alike = lookup-key found v.subject_key c.0 merged.keys c.1.there;
          severe = c.1.severe;
        },
      ) in
      let a : ErgonomicAssessment F = record {
        violations = vs;
        detected_people = length batch.poses;
        evaluated_people = n;
        inference_milliseconds = batch.inference_milliseconds;
      } in
      (
        a,
        rw (screens, valued) refl,
        subst AreDistinct (sym keyed)
            (sorted-AreDistinct keys (keys-AreDistinct found merged.distinct)),
        subst (IsSorted text_lt) (sym keyed)
            (sorted-IsSorted text_lt text_lt-asym text_lt-negative keys),
        postures,
        All-imp _ _
            (λ pose c. All-imp (Covered found) (Reported vs) reported (screened m py e pose) c)
            batch.poses covered,
        omega (arith, few),
      )
