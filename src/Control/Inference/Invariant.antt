-- ===== src/Control/Inference/Invariant.antt =====
-- What every slot of 2identify_operador/app/controllers/ppe_inference_controller.py keeps.
use identify.Base.{
  ◌≡◌, refl, sym, Bool, true, false, not, ◌&&◌, Option, none, some, List, [], length, map, arith,
  All, Bool-cases, Option-cases, inl, inr, Text, Str, normalize,
}
use mathlib.Core.Path.{subst}
use identify.Base.Floats.{Floats}
use identify.Base.Result.{Result, ok, err, Result-cases}
use identify.Domain.Alert.{is_positive}
use identify.Domain.Operation.{Operation, requirement_init}
use identify.Domain.WorkSession.{unique}
use identify.Engine.Stability.Defs.{
  PpeStabilitySnapshot, PpeStabilityEngine, snapshot_init, observe, decide_all, reset,
}
use identify.Engine.Stability.Laws.{IsValid, shown}
use identify.Engine.Stability.Reset.{reset-IsValid}
use identify.Engine.Safety.Defs.{PpeSafetyAssessment, can_start_operation, evaluate}
use identify.Engine.Safety.Laws.{IsBuilt}
use identify.Vision.Tracking.Defs.{Arithmetic}
use identify.Control.Inference.Defs.{
  PpeInferenceController, Page, Effect, dispose_finished_worker, clear, then_do, start, stop,
  shutdown, handle_inference_failure, required_for, handle_model_ready, expire_assessment,
  handle_finished,
}

-- An operation that the constructors built.
pub record IsOperation (py : Str) (o : Operation) : Type 0 where
  pub operation_id : is_positive o.operation_id ≡ true
  pub requirements : All (λ r. requirement_init py r ≡ ok r) o.required_ppe
  pub distinct : unique (map (λ r. r.ppe_id) o.required_ppe) ≡ true

-- The assessment is of an operation and a window of frames.
pub record IsEvidence {F : Type 0} (py : Str) (o : Operation) (model_classes : List Text)
    (s : PpeStabilitySnapshot F) (a : PpeSafetyAssessment) : Type 0 where
  pub built : IsBuilt py model_classes s o
  pub evaluated : evaluate py o model_classes s ≡ ok a

abbrev pub Evidence : Type 0 → Str → PpeSafetyAssessment → Type 0
Evidence F py a =
    (o : Operation) × (model_classes : List Text) × (s : PpeStabilitySnapshot F) × IsEvidence py o
      model_classes s a

-- An assessment that is kept has its instant and its evidence, the model is ready, nothing has been
-- released yet, and the timer is active exactly if the assessment lets an operation start.
abbrev pub Gate :
    {F : Type 0} → Str → Option PpeSafetyAssessment → Option F → Bool → Bool → Bool → Type 0
Gate py none none ready authorized expiry = expiry ≡ false
Gate py none (some at) ready authorized expiry = ⊥
Gate py (some a) none ready authorized expiry = ⊥
Gate {F} py (some a) (some at) ready authorized expiry =
    Evidence F py a × (ready ≡ true) × (authorized ≡ false) × (expiry ≡ can_start_operation a)

pub record IsGated {F : Type 0} (fl : Floats F) (py : Str) (c : PpeInferenceController F)
    : Type 0 where
  pub engine : IsValid fl py c.stability_engine
  pub gate :
      Gate py c.latest_assessment c.latest_assessment_at c.model_ready c.start_authorized
        c.expiry_active

-- The page shows no operation, or one that the constructors built.
abbrev pub IsPage : Str → Page → Type 0
IsPage py page = (o : Operation) → page.operation ≡ some o → IsOperation py o

module _ {F : Type 0} where
  snapshot_init_same :
      (x : PpeStabilitySnapshot F) {s : PpeStabilitySnapshot F}
      → snapshot_init x ≡ ok s
      → snapshot_init s ≡ ok s
  unfolding snapshot_init
  snapshot_init_same x {s = s} h =
      let same : x ≡ s = ground arith in subst (λ y. snapshot_init y ≡ ok s) same h

module _ {F : Type 0} (fl : Floats F) (num : Arithmetic F) (py : Str) where
  pub observe-snapshot :
      (e : PpeStabilityEngine F) (observed : List Text) {s : PpeStabilitySnapshot F}
      → (observe fl py e observed).0 ≡ ok s
      → snapshot_init s ≡ ok s
  unfolding observe
  observe-snapshot e observed {s = s} h =
      elim (Result-cases (
        decide_all fl py (shown fl py e observed) e.required_classes
          (length (shown fl py e observed).observations))) [
            | inl (x, raised) ↦ absurd (ground arith)
            | inr (ds, returned) ↦
                snapshot_init_same
                  (record {
                    decisions = ds;
                    sample_count = length (shown fl py e observed).observations;
                    window_size = e.window_size;
                  })
                  (ground arith)
          ]

  clear-IsGated :
      (c : PpeInferenceController F) → IsGated fl py c → IsGated fl py (clear fl num py c).1
  unfolding clear
  clear-IsGated c h = record {
    engine = reset-IsValid fl py c.stability_engine [] h.engine;
    gate = refl;
  }

  then_do-IsGated :
      (called : Result (Unit {0}) × PpeInferenceController F) (before : List (Effect F))
      (after : PpeInferenceController F → List (Effect F) × PpeInferenceController F)
      → IsGated fl py called.1
      → ((c : PpeInferenceController F) → IsGated fl py c → IsGated fl py (after c).1)
      → IsGated fl py (then_do fl num py called before after).2
  then_do-IsGated (err x, c) before after h k = h
  then_do-IsGated (ok done, c) before after h k = k c h

  with_worker :
      (c : PpeInferenceController F) (w : Option Bool)
      → IsGated fl py c
      → IsGated fl py (record c { worker = w })
  with_worker c w h = record { engine = h.engine; gate = h.gate }

  dispose-IsGated :
      (c : PpeInferenceController F) → IsGated fl py c → IsGated fl py (dispose_finished_worker c).1
  unfolding dispose_finished_worker
  dispose-IsGated c h = elim (Option-cases c.worker) [
    | inl idle ↦ rw (dispose_finished_worker, idle) h
    | inr (running, busy) ↦ elim (Bool-cases running) [
      | inl alive ↦ rw (dispose_finished_worker, busy, alive) h
      | inr ended ↦ rw (dispose_finished_worker, busy, ended) (with_worker c none h)
    ]
  ]

  pub start-IsGated :
      (c : PpeInferenceController F) → IsGated fl py c → IsGated fl py (start fl num py c).2
  unfolding start
  start-IsGated c h = elim (Option-cases c.worker) [
    | inl idle ↦
        rw (start, idle)
          (then_do-IsGated (clear fl num py c) [] _ (clear-IsGated c h)
            (λ d k. with_worker d (some true) k))
    | inr (running, busy) ↦ elim (Bool-cases running) [
      | inl alive ↦ rw (start, busy, alive) h
      | inr ended ↦
          rw (start, busy, ended)
            (then_do-IsGated (clear fl num py (dispose_finished_worker c).1) _ _
              (clear-IsGated (dispose_finished_worker c).1 (dispose-IsGated c h))
              (λ d k. with_worker d (some true) k))
    ]
  ]

  pub stop-IsGated :
      (c : PpeInferenceController F) → IsGated fl py c → IsGated fl py (stop fl num py c).2
  unfolding stop
  stop-IsGated c h = then_do-IsGated (clear fl num py c) [] _ (clear-IsGated c h) (λ d k.
      elim (Option-cases d.worker) [ inl idle ↦ rw idle k | inr (running, busy) ↦ rw busy k ])

  pub shutdown-IsGated :
      (waited : Bool) (c : PpeInferenceController F)
      → IsGated fl py c
      → IsGated fl py (shutdown fl num py waited c).2
  unfolding shutdown
  shutdown-IsGated waited c h = then_do-IsGated (clear fl num py c) [] _ (clear-IsGated c h) (λ d k.
      elim (Option-cases d.worker) [
        | inl idle ↦ rw idle k
        | inr (running, busy) ↦ elim (Bool-cases (running && not waited)) [
          | inl late ↦ rw (busy, late) k
          | inr ended ↦ rw (busy, ended) (with_worker d none k)
        ]
      ])

  pub failure-IsGated :
      (c : PpeInferenceController F)
      → IsGated fl py c
      → IsGated fl py (handle_inference_failure fl num py c).2
  unfolding handle_inference_failure
  failure-IsGated c h = then_do-IsGated (clear fl num py c) [] _ (clear-IsGated c h) (λ d k. k)

  pub model_ready-IsGated :
      (page : Page) (value : Option (List Text)) (c : PpeInferenceController F)
      → IsGated fl py c
      → IsGated fl py (handle_model_ready fl num py page value c).2
  unfolding handle_model_ready
  model_ready-IsGated page none c h = failure-IsGated c h
  model_ready-IsGated page (some value) c h =
      let model_classes = map (normalize py) value in
      let required = required_for page model_classes in
      let before : PpeInferenceController F = record c {
        stability_engine = (reset py c.stability_engine required).1;
      } in
      then_do-IsGated ((reset py c.stability_engine required).0, before) [] _
        (record {
          engine = reset-IsValid fl py c.stability_engine required h.engine;
          gate = h.gate;
        })
        (λ d k. record { engine = k.engine; gate = refl })

  -- whether the kept assessment lets an operation start
  abbrev startable : Option PpeSafetyAssessment → Bool
  startable none = false
  startable (some a) = can_start_operation a

  timer_off :
      (kept : Option PpeSafetyAssessment) (at : Option F) (ready authorized expiry : Bool)
      → Gate py kept at ready authorized expiry
      → startable kept ≡ false
      → Gate py kept at ready authorized false
  timer_off none none ready authorized expiry h k = refl
  timer_off none (some at) ready authorized expiry h k = h
  timer_off (some a) none ready authorized expiry h k = h
  timer_off (some a) (some at) ready authorized expiry h k = (h.0, h.1, h.2, sym k)

  silent :
      (c : PpeInferenceController F)
      → IsGated fl py c
      → startable c.latest_assessment ≡ false
      → IsGated fl py (record c { expiry_active = false })
  silent c h k = record {
    engine = h.engine;
    gate =
        timer_off c.latest_assessment c.latest_assessment_at c.model_ready c.start_authorized
          c.expiry_active h.gate k;
  }

  pub expire-IsGated :
      (c : PpeInferenceController F) → IsGated fl py c → IsGated fl py (expire_assessment c).2
  unfolding expire_assessment
  expire-IsGated c h = elim (Option-cases c.latest_assessment) [
    | inl nothing ↦ rw (expire_assessment, nothing) (silent c h (rw nothing refl))
    | inr (a, kept) ↦ elim (Bool-cases (can_start_operation a)) [
      | inl open_gate ↦
          rw (expire_assessment, kept, open_gate) (record { engine = h.engine; gate = refl })
      | inr shut_gate ↦ rw (expire_assessment, kept, shut_gate) (silent c h (rw kept shut_gate))
    ]
  ]

  pub finished-IsGated :
      (c : PpeInferenceController F) → IsGated fl py c → IsGated fl py (handle_finished c).2
  unfolding handle_finished
  finished-IsGated c h = dispose-IsGated c h
