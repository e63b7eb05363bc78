-- ===== src/Engine/Stability/Defs.antt =====
-- 2identify_operador/app/engine/ppe_stability.py. `F` is the type of the floating-point ratios; a
-- `frozenset` of class names is a list, which is only asked for members. The test `isfinite` is part
-- of the range test, which no infinity and no NaN passes.
use identify.Base.{
  ℕ, Bool, true, not, ◌&&◌, Option, none, some, List, [], ◌∷◌, ◌++◌, map, any, keep, count_if,
  length, ltb, leb, ◌==◌, if◌then◌else◌, is_empty, Text, text_eq, Str, normalize,
}
use identify.Base.Floats.{Floats}
use identify.Base.Result.{Result, ok, err, value_error, ◌>>=◌, ◌>>◌, raise_if}
use identify.Domain.Operation.{mem_text}

pub data PpeStabilityState : Type 0 where
  collecting confirmed_present confirmed_absent unstable : PpeStabilityState

pub record PpeStabilityDecision (F : Type 0) : Type 0 where
  pub detection_class : Text
  pub state : PpeStabilityState
  pub observed_frames : ℕ
  pub sample_count : ℕ
  pub presence_ratio : F

pub record PpeStabilitySnapshot (F : Type 0) : Type 0 where
  pub decisions : List (PpeStabilityDecision F)
  pub sample_count : ℕ
  pub window_size : ℕ

-- `len(set(items)) == len(items)`, for texts
abbrev pub unique_texts : List Text → Bool
unique_texts [] = true
unique_texts (x ∷ xs) = not (mem_text x xs) && unique_texts xs

pub record PpeStabilityEngine (F : Type 0) : Type 0 where
  pub window_size : ℕ
  pub minimum_samples : ℕ
  pub present_ratio : F
  pub absent_ratio : F
  pub required_classes : List Text
  pub observations : List (List Text)

module _ {F : Type 0} (fl : Floats F) where
  -- `PpeStabilityDecision.__post_init__`
  unfoldable pub decision_init : Str → PpeStabilityDecision F → Result (PpeStabilityDecision F)
  decision_init py d = do
    raise_if (is_empty (normalize py d.detection_class)) value_error
    raise_if (ltb d.sample_count 1) value_error
    raise_if (ltb d.sample_count d.observed_frames) value_error
    raise_if (not (fl.le fl.zero d.presence_ratio && fl.le d.presence_ratio fl.one)) value_error
    ok (record d { detection_class = normalize py d.detection_class })

  -- `PpeStabilityEngine.__init__`
  unfoldable pub stability_init : ℕ → ℕ → F → F → Result (PpeStabilityEngine F)
  stability_init window_size minimum_samples present_ratio absent_ratio = do
    raise_if (ltb window_size 1) value_error
    raise_if (not (leb 1 minimum_samples && leb minimum_samples window_size)) value_error
    raise_if
        (not (
          fl.le fl.zero absent_ratio
          && (not (fl.le present_ratio absent_ratio) && fl.le present_ratio fl.one)))
        value_error
    ok (record {
      window_size = window_size;
      minimum_samples = minimum_samples;
      present_ratio = present_ratio;
      absent_ratio = absent_ratio;
      required_classes = [];
      observations = [];
    })

-- `PpeStabilitySnapshot.__post_init__`
unfoldable pub snapshot_init :
    {F : Type 0} → PpeStabilitySnapshot F → Result (PpeStabilitySnapshot F)
snapshot_init s = do
  raise_if (ltb s.window_size 1) value_error
  raise_if (not (leb 1 s.sample_count && leb s.sample_count s.window_size)) value_error
  raise_if (any (λ d. not (d.sample_count == s.sample_count)) s.decisions) value_error
  raise_if (not (unique_texts (map (λ d. d.detection_class) s.decisions))) value_error
  ok s

-- `decision_for`: the first decision of the normalised class
unfoldable pub find_decision :
    {F : Type 0} → Text → List (PpeStabilityDecision F) → Option (PpeStabilityDecision F)
find_decision c [] = none
find_decision c (d ∷ ds) = if text_eq d.detection_class c then some d else find_decision c ds

unfoldable pub decision_for :
    {F : Type 0} → Str → PpeStabilitySnapshot F → Text → Option (PpeStabilityDecision F)
decision_for py s c = find_decision (normalize py c) s.decisions

-- the loop of `reset`, with the classes kept so far
unfoldable pub normalize_classes : Str → List Text → List Text → Result (List Text)
normalize_classes py kept [] = ok kept
normalize_classes py kept (c ∷ cs) =
    let rest =
      normalize_classes py
        (if mem_text (normalize py c) kept then kept else kept ++ (normalize py c ∷ [])) cs in
    if is_empty (normalize py c) then err value_error else rest

-- the classes of a frame: normalised, without the empty ones
unfoldable pub frame_classes : Str → List Text → List Text
frame_classes py observed = keep (λ c. not (is_empty c)) (map (normalize py) observed)

-- `append` to a `deque` of bounded length, which drops the oldest entry
unfoldable pub push {ℓ} : {A : Type ℓ} → ℕ → List A → A → List A
push bound [] x = x ∷ []
push bound (y ∷ ys) x = if ltb (length (y ∷ ys)) bound then y ∷ (ys ++ (x ∷ [])) else ys ++ (x ∷ [])

module _ {F : Type 0} where
  -- `reset`
  unfoldable pub reset :
      Str → PpeStabilityEngine F → List Text → Result (Unit {0}) × PpeStabilityEngine F
  reset py e required = elim (normalize_classes py [] required) [
    | err x ↦ (err x, e)
    | ok classes ↦ (ok tt, record e { required_classes = classes; observations = [] })
  ]

  -- how many frames of the window show the class
  abbrev pub observed_frames : PpeStabilityEngine F → Text → ℕ
  observed_frames e c = count_if (λ frame. mem_text c frame) e.observations

module _ {F : Type 0} (fl : Floats F) (py : Str) where
  -- the ladder of `_decide`
  unfoldable pub classify : PpeStabilityEngine F → ℕ → F → PpeStabilityState
  classify e sample_count ratio =
      if ltb sample_count e.minimum_samples
      then collecting
      else if fl.le e.present_ratio ratio
      then confirmed_present
      else if fl.le ratio e.absent_ratio
      then confirmed_absent
      else unstable

  -- `_decide`
  unfoldable pub decide : PpeStabilityEngine F → Text → ℕ → Result (PpeStabilityDecision F)
  decide e c sample_count =
      let ratio = fl.divide (observed_frames e c) sample_count in
      decision_init fl py (record {
        detection_class = c;
        state = classify e sample_count ratio;
        observed_frames = observed_frames e c;
        sample_count = sample_count;
        presence_ratio = ratio;
      })

  -- the tuple of decisions, class by class
  unfoldable pub decide_all :
      PpeStabilityEngine F → List Text → ℕ → Result (List (PpeStabilityDecision F))
  decide_all e [] sample_count = ok []
  decide_all e (c ∷ cs) sample_count = do
    d ← decide e c sample_count
    ds ← decide_all e cs sample_count
    ok (d ∷ ds)

  -- `observe`
  unfoldable pub observe :
      PpeStabilityEngine F → List Text → Result (PpeStabilitySnapshot F) × PpeStabilityEngine F
  observe e observed =
      let e' : PpeStabilityEngine F = record e {
        observations = push e.window_size e.observations (frame_classes py observed);
      } in
      let sample_count = length e'.observations in
      (
        do
          decisions ← decide_all e' e.required_classes sample_count
          snapshot_init (record {
            decisions = decisions;
            sample_count = sample_count;
            window_size = e.window_size;
          }),
        e',
      )
