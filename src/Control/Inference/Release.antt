-- ===== src/Control/Inference/Release.antt =====
-- `_handle_operation_start_requested` of
-- 2identify_operador/app/controllers/ppe_inference_controller.py.
use identify.Base.{
  ℕ, ◌≡◌, ◌⊎◌, refl, sym, Bool, true, false, not, Option, none, some, List, [], ◌∷◌, any, map,
  arith, All, Bool-cases, Option-cases, inl, inr, Text, Str,
}
use mathlib.Core.Path.{subst}
use identify.Base.Floats.{Floats}
use identify.Base.Result.{ok}
use identify.Domain.Alert.{is_positive}
use identify.Domain.Operation.{Operation, PpeRequirement, requirement_init}
use identify.Domain.WorkSession.{
  OperationStartAuthorization, authorization_init, check_ppe_ids, check_samples, is_nil,
}
use identify.Engine.Stability.Defs.{PpeStabilitySnapshot, snapshot_init}
use identify.Engine.Safety.Defs.{PpeSafetyAssessment, status_for, can_start_operation}
use identify.Engine.Safety.Laws.{IsBuilt, item_of, same_ids, evaluate_total, has_requirements, Seen}
use identify.Engine.Safety.Gate.{evaluate_gate}
use identify.Services.Sessions.Laws.{authorization_fields}
use identify.Vision.Tracking.Defs.{Arithmetic}
use identify.Control.Inference.Defs.{
  PpeInferenceController, Page, show_operation_start_rejected, show_operation_start_authorized,
  operation_start_authorized, evidence_of, refuses, handle_operation_start_requested,
}
use identify.Control.Inference.Invariant.{IsEvidence, Evidence, Gate, IsGated}

-- the authorization that an assessment gives
abbrev pub authorization_of : PpeSafetyAssessment → ℕ → OperationStartAuthorization ℕ
authorization_of a utc = record {
  operation_id = a.operation_id;
  verified_ppe_ids = map (λ item. item.ppe_id) a.requirements;
  sample_count = a.sample_count;
  window_size = a.window_size;
  authorized_at = utc;
}

module _ (py : Str) where
  positive_ids :
      (rs : List PpeRequirement)
      → All (λ r. requirement_init py r ≡ ok r) rs
      → any (λ i. not (is_positive i)) (map (λ r. r.ppe_id) rs) ≡ false
  unfolding requirement_init
  positive_ids [] h = refl
  positive_ids (r ∷ rs) h =
      let mine : is_positive r.ppe_id ≡ true = ground (arith, h.0) in rw mine (positive_ids rs h.1)

  samples_fit :
      {F : Type 0} (s : PpeStabilitySnapshot F)
      → snapshot_init s ≡ ok s
      → check_samples s.sample_count s.window_size ≡ ok tt
  unfolding snapshot_init check_samples
  samples_fit s h = ground arith

  module _ {F : Type 0} (o : Operation) (classes : List Text) (s : PpeStabilitySnapshot F) where
    abbrev assessed : PpeSafetyAssessment
    assessed = record {
      operation_id = o.operation_id;
      operation_active = o.active;
      status = status_for o.active (map (item_of py classes s) o.required_ppe);
      requirements = map (item_of py classes s) o.required_ppe;
      sample_count = s.sample_count;
      window_size = s.window_size;
    }

    -- An assessment that lets an operation start is of an active operation with at least one item,
    -- whose items have been seen.
    pub compliant_lem :
        (a : PpeSafetyAssessment)
        → IsEvidence py o classes s a
        → can_start_operation a ≡ true
        → (o.active ≡ true)
          × (has_requirements o.required_ppe ≡ true)
          × All (Seen py classes s) o.required_ppe
    compliant_lem a h k =
        let (found, e, gate) = evaluate_gate py classes s o h.built in
        let same : found ≡ a = ground (arith, e, h.evaluated) in
        gate.0 (subst (λ x. can_start_operation x ≡ true) (sym same) k)

    assessed_same : (a : PpeSafetyAssessment) → IsEvidence py o classes s a → assessed ≡ a
    assessed_same a h = ground (arith, evaluate_total py classes s o h.built, h.evaluated)

    -- The identifiers that the assessment verifies are those that the operation requires.
    pub verified_lem :
        (a : PpeSafetyAssessment)
        → IsEvidence py o classes s a
        → (a.operation_id ≡ o.operation_id)
          × (map (λ item. item.ppe_id) a.requirements ≡ map (λ r. r.ppe_id) o.required_ppe)
    verified_lem a h =
        subst
          (λ x.
            (x.operation_id ≡ o.operation_id)
            × (map (λ item. item.ppe_id) x.requirements ≡ map (λ r. r.ppe_id) o.required_ppe))
          (assessed_same a h) (refl, same_ids py classes s o.required_ppe)

    pub some_items :
        (rs : List PpeRequirement)
        → has_requirements rs ≡ true
        → is_nil (map (λ r. r.ppe_id) rs) ≡ false
    some_items [] h = absurd (ground arith)
    some_items (r ∷ rs) h = refl

    assessed_authorizes :
        (utc : ℕ)
        → IsBuilt py classes s o
        → has_requirements o.required_ppe ≡ true
        → authorization_init (authorization_fields (authorization_of assessed utc))
          ≡ ok (authorization_of assessed utc)
    unfolding authorization_init check_ppe_ids
    assessed_authorizes utc b h =
        rw
          (
            same_ids py classes s o.required_ppe,
            b.operation_id,
            some_items o.required_ppe h,
            positive_ids o.required_ppe b.requirements,
            b.distinct,
            samples_fit s b.snapshot,
          )
          refl

    -- An assessment that lets an operation start gives an authorization that its constructor
    -- accepts.
    pub evidence_authorizes :
        (a : PpeSafetyAssessment) (utc : ℕ)
        → IsEvidence py o classes s a
        → can_start_operation a ≡ true
        → authorization_init (authorization_fields (authorization_of a utc))
          ≡ ok (authorization_of a utc)
    evidence_authorizes a utc h k =
        subst
          (λ x.
            authorization_init (authorization_fields (authorization_of x utc))
            ≡ ok (authorization_of x utc))
          (assessed_same a h) (assessed_authorizes utc h.built (compliant_lem a h k).1)

-- The terms on which a request releases the operation.
pub record IsReleasable {F : Type 0} (num : Arithmetic F) (page : Page)
    (c : PpeInferenceController F) (operation_id : ℕ) (now : F) (shown : Operation)
    (a : PpeSafetyAssessment) (at : F) : Type 0 where
  pub shows : page.operation ≡ some shown
  pub kept : c.latest_assessment ≡ some a
  pub dated : c.latest_assessment_at ≡ some at
  pub ready : c.model_ready ≡ true
  pub unreleased : c.start_authorized ≡ false
  pub camera : page.camera_active ≡ true
  pub same_operation : shown.operation_id ≡ operation_id
  pub same_assessed : a.operation_id ≡ operation_id
  pub compliant : can_start_operation a ≡ true
  pub fresh : num.lt c.assessment_max_age_seconds (num.sub now at) ≡ false

-- the state after a release
abbrev pub released : {F : Type 0} → PpeInferenceController F → PpeInferenceController F
released c = record c {
  start_authorized = true;
  latest_assessment = none;
  latest_assessment_at = none;
  expiry_active = false;
}

module _ {F : Type 0} (fl : Floats F) (num : Arithmetic F) (py : Str) where
  kept-Evidence :
      (kept : Option PpeSafetyAssessment) (at : Option F) (ready authorized expiry : Bool)
      (a : PpeSafetyAssessment)
      → Gate py kept at ready authorized expiry
      → kept ≡ some a
      → Evidence F py a
  kept-Evidence none none ready authorized expiry a h k = absurd (ground arith)
  kept-Evidence none (some at) ready authorized expiry a h k = absurd h
  kept-Evidence (some x) none ready authorized expiry a h k = absurd h
  kept-Evidence (some x) (some at) ready authorized expiry a h k =
      let same : x ≡ a = ground arith in subst (λ y. Evidence F py y) same h.0

  evidence_of_lem :
      (page : Page) (c : PpeInferenceController F) (o : Operation) (a : PpeSafetyAssessment)
      (at : F)
      → evidence_of fl num py page c ≡ some (o, a, at)
      → (page.operation ≡ some o)
        × (c.latest_assessment ≡ some a)
        × (c.latest_assessment_at ≡ some at)
  evidence_of_lem page c o a at h = elim (Option-cases page.operation) [
    | inl blank ↦ absurd (ground arith)
    | inr (shown, e) ↦ elim (Option-cases c.latest_assessment) [
      | inl nothing ↦ absurd (ground arith)
      | inr (kept, f) ↦ elim (Option-cases c.latest_assessment_at) [
        | inl undated ↦ absurd (ground arith)
        | inr (instant, g) ↦ (ground arith, ground arith, ground arith)
      ]
    ]
  ]

  passes :
      (page : Page) (c : PpeInferenceController F) (operation_id : ℕ) (now : F) (o : Operation)
      (a : PpeSafetyAssessment) (at : F)
      → page.operation ≡ some o
      → c.latest_assessment ≡ some a
      → c.latest_assessment_at ≡ some at
      → refuses fl num py page c operation_id now o a at ≡ false
      → IsReleasable num page c operation_id now o a at
  unfolding refuses
  passes page c operation_id now o a at shows kept dated h = record {
    shows = shows;
    kept = kept;
    dated = dated;
    ready = ground arith;
    unreleased = ground arith;
    camera = ground arith;
    same_operation = ground arith;
    same_assessed = ground arith;
    compliant = ground arith;
    fresh = ground arith;
  }

  -- In a gated state a request to start raises nothing: it is rejected without a change, or the
  -- page shows the operation with an active camera, the model is ready, nothing has been released,
  -- and the kept assessment is of that operation, lets it start, is not too old and rests on
  -- evidence; then the authorization for exactly the items that the assessment verifies is emitted
  -- once and the assessment is dropped.
  pub request_released :
      (page : Page) (operation_id : ℕ) (now : F) (utc : ℕ) (c : PpeInferenceController F)
      → IsGated fl py c
      → (handle_operation_start_requested fl num py page operation_id now utc c
          ≡ (ok tt, show_operation_start_rejected ∷ [], c))
        ⊎ ((shown : Operation) × (a : PpeSafetyAssessment) × (at : F) × IsReleasable num page c
              operation_id now shown a at
            × Evidence F py a
            × (handle_operation_start_requested fl num py page operation_id now utc c ≡ (
              ok tt,
              show_operation_start_authorized
                  ∷ operation_start_authorized (authorization_of a utc)
                  ∷ [],
              released c,
            )))
  unfolding handle_operation_start_requested
  request_released page operation_id now utc c h =
      elim (Option-cases (evidence_of fl num py page c)) [
        | inl nothing ↦ inl (rw (handle_operation_start_requested, nothing) refl)
        | inr ((o, a, at), found) ↦
            elim (Bool-cases (refuses fl num py page c operation_id now o a at)) [
              | inl refused ↦ inl (rw (handle_operation_start_requested, found, refused) refl)
              | inr passed ↦
                  let (shows, kept, dated) = evidence_of_lem page c o a at found in
                  let terms = passes page c operation_id now o a at shows kept dated passed in
                  let (op, classes, s, evidence) =
                    kept-Evidence c.latest_assessment c.latest_assessment_at c.model_ready
                      c.start_authorized c.expiry_active a h.gate kept in
                  let built =
                    subst
                      (λ i.
                        authorization_init (record (authorization_fields (authorization_of a utc)) {
                          operation_id = i;
                        })
                        ≡ ok (authorization_of a utc))
                      terms.same_assessed
                      (evidence_authorizes py op classes s a utc evidence terms.compliant) in
                  inr (
                    o,
                    a,
                    at,
                    terms,
                    (op, classes, s, evidence),
                    rw (handle_operation_start_requested, found, passed, built) refl,
                  )
            ]
      ]

  pub request-IsGated :
      (page : Page) (operation_id : ℕ) (now : F) (utc : ℕ) (c : PpeInferenceController F)
      → IsGated fl py c
      → IsGated fl py (handle_operation_start_requested fl num py page operation_id now utc c).2
  request-IsGated page operation_id now utc c h =
      elim (request_released page operation_id now utc c h) [
        | inl rejected ↦ subst (λ x. IsGated fl py x.2) (sym rejected) h
        | inr (o, a, at, terms, evidence, e) ↦
            subst (λ x. IsGated fl py x.2) (sym e) (record { engine = h.engine; gate = refl })
      ]
