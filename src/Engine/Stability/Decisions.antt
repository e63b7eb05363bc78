-- ===== src/Engine/Stability/Decisions.antt =====
-- What the snapshots of a sequence of frames decide: `observe`, `_decide` and `decision_for` of
-- 2identify_operador/app/engine/ppe_stability.py.
use identify.Base.{
  ℕ, ◌≤◌, ◌<◌, ◌≡◌, ◌↔◌, refl, sym, ap, ◌∙◌, true, false, some, List, [], ◌∷◌, ◌++◌, map, arith,
  count_if, length, Bool-cases, inl, inr, Text, text_eq_iff, Str, normalize,
}
use mathlib.Core.Path.{subst}
use identify.Base.Floats.{Floats}
use identify.Base.Result.{ok}
use identify.Domain.Operation.{mem_text}
use identify.Engine.Stability.Defs.{
  collecting, confirmed_present, confirmed_absent, unstable, PpeStabilityDecision,
  PpeStabilitySnapshot, PpeStabilityEngine, find_decision, decision_for, frame_classes, classify,
  observe,
}
use identify.Engine.Stability.Laws.{IsValid, verdict, shown, observe_lem}
use identify.Engine.Stability.Window.{watch, last_of, watch-last_of}

-- A decision for a class that a window of frames gives, with what each state means.
pub record IsDecision {F : Type 0} (fl : Floats F) (minimum : ℕ) (present absent : F) (c : Text)
    (window : List (List Text)) (d : PpeStabilityDecision F) : Type 0 where
  pub class_name : d.detection_class ≡ c
  pub samples : d.sample_count ≡ length window
  pub frames : d.observed_frames ≡ count_if (λ frame. mem_text c frame) window
  pub ratio : d.presence_ratio ≡ fl.divide d.observed_frames d.sample_count
  pub is_collecting : (d.state ≡ collecting) ↔ (length window < minimum)
  pub is_present :
      (d.state ≡ confirmed_present)
      ↔ ((minimum ≤ length window) × (fl.le present d.presence_ratio ≡ true))
  pub is_absent :
      (d.state ≡ confirmed_absent)
      ↔ ((minimum ≤ length window) × (fl.le d.presence_ratio absent ≡ true))
  pub is_unstable : (d.state ≡ unstable) ↔ (
      (minimum ≤ length window)
      × (fl.le present d.presence_ratio ≡ false)
      × (fl.le d.presence_ratio absent ≡ false))

module _ {F : Type 0} (fl : Floats F) (py : Str) where
  verdict-IsDecision :
      (e : PpeStabilityEngine F) (c : Text)
      → IsValid fl py e
      → IsDecision fl e.minimum_samples e.present_ratio e.absent_ratio c e.observations
          (verdict fl py e c)
  unfolding classify
  verdict-IsDecision e c v =
      let n = length e.observations in
      let r = fl.divide (count_if (λ frame. mem_text c frame) e.observations) n in
      let apart = fl.le_trans e.present_ratio r e.absent_ratio in
      let below = v.absent_below_present in
      record {
        class_name = refl;
        samples = refl;
        frames = refl;
        ratio = refl;
        is_collecting = ground arith;
        is_present = ground arith;
        is_absent = elim (Bool-cases (fl.le e.present_ratio r)) [
          | inl high ↦ elim (Bool-cases (fl.le r e.absent_ratio)) [
            | inl low ↦ absurd (ground (arith, apart high low))
            | inr mid ↦ ground arith
          ]
          | inr other ↦ ground arith
        ];
        is_unstable = ground arith;
      }

  find_verdict :
      (e : PpeStabilityEngine F) (c : Text) (cs : List Text)
      → mem_text c cs ≡ true
      → find_decision c (map (verdict fl py e) cs) ≡ some (verdict fl py e c)
  unfolding find_decision
  find_verdict e c [] h = absurd (cc)
  find_verdict e c (d ∷ ds) h =
      ground (arith, text_eq_iff d c, text_eq_iff c d, find_verdict e c ds)

  watch-IsValid :
      (e : PpeStabilityEngine F) (frames : List (List Text))
      → IsValid fl py e
      → IsValid fl py (watch fl py e frames)
  unfolding watch observe
  watch-IsValid e [] v = v
  watch-IsValid e (frame ∷ frames) v =
      watch-IsValid (observe fl py e frame).1 frames (observe_lem fl py e frame v).1

  -- frames change the window and nothing else
  watch_frame :
      (e : PpeStabilityEngine F) (frames : List (List Text))
      → watch fl py e frames ≡ record e { observations = (watch fl py e frames).observations }
  unfolding watch observe
  watch_frame e [] = refl
  watch_frame e (frame ∷ frames) = watch_frame (observe fl py e frame).1 frames

  watch-append :
      (e : PpeStabilityEngine F) (frames : List (List Text)) (frame : List Text)
      → watch fl py e (frames ++ (frame ∷ [])) ≡ (observe fl py (watch fl py e frames) frame).1
  unfolding watch
  watch-append e [] frame = refl
  watch-append e (f ∷ frames) frame = watch-append (observe fl py e f).1 frames frame

  -- On a valid engine with an empty window, a frame after any others returns a snapshot, and its
  -- decision for a required class in its normal form is that of the last frames, as many as the
  -- window has room for: it counts those that show the class, and says collecting exactly below the
  -- minimum of frames, and from there on present exactly if the ratio reaches the one bound, absent
  -- exactly if it does not exceed the other, and unstable exactly in between.
  pub observe_decides :
      (e : PpeStabilityEngine F) (frames : List (List Text)) (frame : List Text) (c : Text)
      → IsValid fl py e
      → e.observations ≡ []
      → normalize py c ≡ c
      → mem_text c e.required_classes ≡ true
      → (s : PpeStabilitySnapshot F) × (d : PpeStabilityDecision F) × ((observe fl py
            (watch fl py e frames)
            frame).0
          ≡ ok s)
        × (decision_for py s c ≡ some d)
        × IsDecision fl e.minimum_samples e.present_ratio e.absent_ratio c
            (last_of e.window_size (map (frame_classes py) (frames ++ (frame ∷ []))))
            d
  unfolding decision_for
  observe_decides e frames frame c v empty normal required =
      let before = watch fl py e frames in
      let (ran, valid) = observe_lem fl py before frame (watch-IsValid e frames v) in
      let after = shown fl py before frame in
      let kept = watch_frame e frames in
      let listed : mem_text c before.required_classes ≡ true =
        ap (λ x. mem_text c x.required_classes) kept ∙ required in
      let window : after.observations
          ≡ last_of e.window_size (map (frame_classes py) (frames ++ (frame ∷ []))) =
        ap (λ r. r.1.observations) (sym ran)
        ∙ ap (λ x. x.observations) (sym (watch-append e frames frame))
        ∙ watch-last_of fl py e (frames ++ (frame ∷ []))
            (omega (arith, v.minimum_positive, v.minimum_fits)) empty in
      (
        record {
          decisions = map (verdict fl py after) before.required_classes;
          sample_count = length after.observations;
          window_size = before.window_size;
        },
        verdict fl py after c,
        ap (λ r. r.0) ran,
        rw normal (find_verdict after c before.required_classes listed),
        subst
            (λ (x : PpeStabilityEngine F).
              IsDecision fl x.minimum_samples x.present_ratio x.absent_ratio c
                (last_of e.window_size (map (frame_classes py) (frames ++ (frame ∷ []))))
                (verdict fl py after c))
            kept
            (subst
              (λ w.
                IsDecision fl after.minimum_samples after.present_ratio after.absent_ratio c w
                  (verdict fl py after c))
              window (verdict-IsDecision after c valid)),
      )
