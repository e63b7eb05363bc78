-- ===== src/Engine/Stability/Laws.antt =====
-- `observe` and `_decide` of 2identify_operador/app/engine/ppe_stability.py.
use identify.Base.{
  ℕ, ◌≤◌, ◌<◌, ◌≡◌, refl, ap, Bool, true, false, not, List, [], ◌∷◌, map, arith, All, all, any,
  length, length-append, count_if, count_if-le-length, ◌==◌, is_empty, Text, Str, normalize,
}
use identify.Base.Floats.{Floats}
use identify.Base.Result.{ok}
use identify.Domain.Operation.{mem_text}
use identify.Engine.Stability.Defs.{
  confirmed_present, confirmed_absent, PpeStabilityDecision, PpeStabilityEngine, unique_texts,
  decision_init, snapshot_init, frame_classes, push, observed_frames, classify, decide, decide_all,
  observe,
}

abbrev pub IsClass : Str → Text → Type 0
IsClass py c = (normalize py c ≡ c) × (is_empty c ≡ false)

-- What the constructor checks, and what `reset` and `observe` keep.
pub record IsValid {F : Type 0} (fl : Floats F) (py : Str) (e : PpeStabilityEngine F) : Type 0 where
  pub minimum_positive : 1 ≤ e.minimum_samples
  pub minimum_fits : e.minimum_samples ≤ e.window_size
  pub absent_from_zero : fl.le fl.zero e.absent_ratio ≡ true
  pub absent_below_present : fl.le e.present_ratio e.absent_ratio ≡ false
  pub present_to_one : fl.le e.present_ratio fl.one ≡ true
  pub classes : All (IsClass py) e.required_classes
  pub distinct : unique_texts e.required_classes ≡ true
  pub fits : length e.observations ≤ e.window_size

module _ {F : Type 0} (fl : Floats F) (py : Str) where
  -- what the engine says of a class
  abbrev pub verdict : PpeStabilityEngine F → Text → PpeStabilityDecision F
  verdict e c = record {
    detection_class = c;
    state =
        classify fl py e (length e.observations)
          (fl.divide (observed_frames e c) (length e.observations));
    observed_frames = observed_frames e c;
    sample_count = length e.observations;
    presence_ratio = fl.divide (observed_frames e c) (length e.observations);
  }

  -- the engine with the frame in its window
  abbrev pub shown : PpeStabilityEngine F → List Text → PpeStabilityEngine F
  shown e observed = record e {
    observations = push e.window_size e.observations (frame_classes py observed);
  }

  decide_lem :
      (e : PpeStabilityEngine F) (c : Text)
      → 0 < length e.observations
      → IsClass py c
      → decide fl py e c (length e.observations) ≡ ok (verdict e c)
  unfolding decide decision_init
  decide_lem e c h k =
      let n = observed_frames e c in
      let m = length e.observations in
      let le = count_if-le-length (λ frame. mem_text c frame) e.observations in
      ground (
        arith,
        le,
        fl.divide_none m h,
        fl.divide_all m h,
        fl.divide_mono 0 n m h,
        fl.divide_mono n m m h,
      )

  decide_all_lem :
      (e : PpeStabilityEngine F) (cs : List Text)
      → 0 < length e.observations
      → All (IsClass py) cs
      → decide_all fl py e cs (length e.observations) ≡ ok (map (verdict e) cs)
  unfolding decide_all
  decide_all_lem e [] h k = refl
  decide_all_lem e (c ∷ cs) h k = ground (arith, decide_lem e c h k.0, decide_all_lem e cs h k.1)

  length-push :
      {A : Type 0} (bound : ℕ) (xs : List A) (x : A)
      → 1 ≤ bound
      → length xs ≤ bound
      → (1 ≤ length (push bound xs x)) × (length (push bound xs x) ≤ bound)
  unfolding push
  length-push bound [] x h k = (omega arith, omega arith)
  length-push bound (y ∷ ys) x h k =
      (ground (arith, length-append ys (x ∷ [])), ground (arith, length-append ys (x ∷ [])))

  same_counts :
      (e : PpeStabilityEngine F) (cs : List Text)
      → any (λ d. not (d.sample_count == length e.observations)) (map (verdict e) cs) ≡ false
  same_counts e [] = refl
  same_counts e (c ∷ cs) = ground (arith, same_counts e cs)

  same_classes :
      (e : PpeStabilityEngine F) (cs : List Text)
      → map (λ d. d.detection_class) (map (verdict e) cs) ≡ cs
  same_classes e [] = refl
  same_classes e (c ∷ cs) = ap (◌∷◌ c) (same_classes e cs)

  -- On a valid engine a frame is observed without a raise: the engine with the frame in its window
  -- is valid, and the snapshot has one decision for each required class, in their order.
  pub observe_lem :
      (e : PpeStabilityEngine F) (observed : List Text)
      → IsValid fl py e
      → (observe fl py e observed ≡ (
        ok (record {
          decisions = map (verdict (shown e observed)) e.required_classes;
          sample_count = length (shown e observed).observations;
          window_size = e.window_size;
        }),
        shown e observed,
      ))
        × IsValid fl py (shown e observed)
  unfolding observe snapshot_init
  observe_lem e observed v =
      let (some_frame, fits) =
        length-push e.window_size e.observations (frame_classes py observed) (omega arith) v.fits in
      (
        ground (
          arith,
          decide_all_lem (shown e observed) e.required_classes some_frame v.classes,
          same_counts (shown e observed) e.required_classes,
          same_classes (shown e observed) e.required_classes,
        ),
        record {
          minimum_positive = v.minimum_positive;
          minimum_fits = v.minimum_fits;
          absent_from_zero = v.absent_from_zero;
          absent_below_present = v.absent_below_present;
          present_to_one = v.present_to_one;
          classes = v.classes;
          distinct = v.distinct;
          fits = fits;
        },
      )

count_if-all :
    {A : Type 0} (p : A → Bool) (xs : List A) → all p xs ≡ true → count_if p xs ≡ length xs
count_if-all p [] h = refl
count_if-all p (x ∷ xs) h = ground (arith, count_if-all p xs)

count_if-none : {A : Type 0} (p : A → Bool) (xs : List A) → any p xs ≡ false → count_if p xs ≡ 0
count_if-none p [] h = refl
count_if-none p (x ∷ xs) h = ground (arith, count_if-none p xs)

module _ {F : Type 0} (fl : Floats F) (py : Str) (e : PpeStabilityEngine F) (c : Text) where
  -- In a valid engine whose window has the minimum of samples, a class that every frame of the
  -- window shows is confirmed present.
  pub verdict_present :
      IsValid fl py e
      → e.minimum_samples ≤ length e.observations
      → all (λ frame. mem_text c frame) e.observations ≡ true
      → (verdict fl py e c).state ≡ confirmed_present
  unfolding classify
  verdict_present v enough every =
      let n = length e.observations in
      let pos : 0 < n = omega (arith, v.minimum_positive) in
      ground (
        arith,
        count_if-all (λ frame. mem_text c frame) e.observations every,
        fl.divide_all n pos,
        v.present_to_one,
      )

  -- In a valid engine whose window has the minimum of samples, a class that no frame of the window
  -- shows is confirmed absent.
  pub verdict_absent :
      IsValid fl py e
      → e.minimum_samples ≤ length e.observations
      → any (λ frame. mem_text c frame) e.observations ≡ false
      → (verdict fl py e c).state ≡ confirmed_absent
  unfolding classify
  verdict_absent v enough none_shows =
      let n = length e.observations in
      let pos : 0 < n = omega (arith, v.minimum_positive) in
      ground (
        arith,
        count_if-none (λ frame. mem_text c frame) e.observations none_shows,
        fl.divide_none n pos,
        v.absent_from_zero,
        v.absent_below_present,
        fl.le_trans e.present_ratio fl.zero e.absent_ratio,
      )
