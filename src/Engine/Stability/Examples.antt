-- ===== src/Engine/Stability/Examples.antt =====
-- The window of 2identify_operador/app/engine/ppe_stability.py on a helmet, with ratios that are
-- rounded to nothing, a part and all.
use identify.Base.{
  ℕ, ◌≤◌, ◌≡◌, ◌==◌, refl, true, false, if◌then◌else◌, ltb, leb, some, List, [], ◌∷◌, arith, map,
  length, any, Text, codes, plain_str, normalize, text_eq,
}
use identify.Base.Floats.{Floats}
use identify.Base.Result.{ok}
use identify.Engine.Stability.Defs.{
  confirmed_absent, PpeStabilityEngine, PpeStabilitySnapshot, PpeStabilityDecision, observe,
  frame_classes, decision_for,
}
use identify.Engine.Stability.Window.{watch, last_of, watch-last_of}
use identify.Engine.Stability.Decisions.{IsDecision, observe_decides}
use identify.Engine.Stability.Laws.{IsValid, verdict, shown, observe_lem, verdict_absent}

abbrev part_of : ℕ → ℕ → ℕ
part_of n m = if n == 0 then 0 else if ltb n m then 1 else 2

abbrev rounded : Floats ℕ
rounded = record {
  zero = 0;
  one = 2;
  le = leb;
  divide = part_of;
  le_trans = λ x y z h k. ground arith;
  le_total = λ x y h. ground arith;
  divide_none = λ m h. ground arith;
  divide_all = λ m h. ground arith;
  divide_mono = λ n k m h le. ground arith;
}

abbrev helmet : Text
helmet = codes "helmet"

abbrev vest : Text
vest = codes "vest"

-- a window of two frames, of which the first has been seen
abbrev engine : PpeStabilityEngine ℕ
engine = record {
  window_size = 2;
  minimum_samples = 2;
  present_ratio = 2;
  absent_ratio = 0;
  required_classes = helmet ∷ [];
  observations = (helmet ∷ []) ∷ [];
}

abbrev empty_engine : PpeStabilityEngine ℕ
empty_engine = record engine { observations = [] }

abbrev full_engine : PpeStabilityEngine ℕ
full_engine = record engine { observations = (helmet ∷ []) ∷ (helmet ∷ []) ∷ [] }

engine-IsValid :
    (frames : List (List Text))
    → length frames ≤ 2
    → IsValid rounded plain_str (record engine { observations = frames })
unfolding normalize text_eq
engine-IsValid frames h = record {
  minimum_positive = omega arith;
  minimum_fits = omega arith;
  absent_from_zero = refl;
  absent_below_present = refl;
  present_to_one = refl;
  classes = ((refl, refl), tt);
  distinct = refl;
  fits = h;
}

observe_example :
    (observe rounded plain_str engine (helmet ∷ []) ≡ (
      ok (record {
        decisions =
            map
              (verdict rounded plain_str (shown rounded plain_str engine (helmet ∷ [])))
              (helmet ∷ []);
        sample_count = length (shown rounded plain_str engine (helmet ∷ [])).observations;
        window_size = 2;
      }),
      shown rounded plain_str engine (helmet ∷ []),
    ))
    × IsValid rounded plain_str (shown rounded plain_str engine (helmet ∷ []))
observe_example =
    observe_lem rounded plain_str engine (helmet ∷ [])
      (engine-IsValid ((helmet ∷ []) ∷ []) (omega arith))

helmet_required : any (λ c. text_eq helmet c) (helmet ∷ []) ≡ true
unfolding text_eq
helmet_required = refl

plain_helmet : normalize plain_str helmet ≡ helmet
unfolding normalize
plain_helmet = refl

observe_decides_example :
    (s : PpeStabilitySnapshot ℕ) × (d : PpeStabilityDecision ℕ) × ((observe rounded plain_str
        (watch rounded plain_str empty_engine ((helmet ∷ []) ∷ []))
        (helmet ∷ [])).0
      ≡ ok s)
    × (decision_for plain_str s helmet ≡ some d)
    × IsDecision rounded 2 2 0 helmet
        (last_of 2 (map (frame_classes plain_str) ((helmet ∷ []) ∷ (helmet ∷ []) ∷ [])))
        d
observe_decides_example =
    observe_decides rounded plain_str empty_engine ((helmet ∷ []) ∷ []) (helmet ∷ []) helmet
      (engine-IsValid [] (omega arith)) refl plain_helmet helmet_required

watch-last_of_example :
    (watch rounded plain_str empty_engine
      ((vest ∷ []) ∷ (helmet ∷ []) ∷ (helmet ∷ []) ∷ [])).observations
    ≡ last_of 2 (map (frame_classes plain_str) ((vest ∷ []) ∷ (helmet ∷ []) ∷ (helmet ∷ []) ∷ []))
watch-last_of_example =
    watch-last_of rounded plain_str empty_engine ((vest ∷ []) ∷ (helmet ∷ []) ∷ (helmet ∷ []) ∷ [])
      (omega arith) refl

no_frame : any (λ frame. any (λ c. text_eq vest c) frame) full_engine.observations ≡ false
unfolding text_eq
no_frame = refl

verdict_absent_example : (verdict rounded plain_str full_engine vest).state ≡ confirmed_absent
verdict_absent_example =
    verdict_absent rounded plain_str full_engine vest
      (engine-IsValid full_engine.observations (omega arith)) (omega arith) no_frame
