-- ===== src/Control/Start.antt =====
-- The release of 2identify_operador/app/controllers/ppe_inference_controller.py and `start` of
-- 2identify_operador/app/services/work_session_service.py together.
use identify.Base.{
  ℕ, ◌+◌, ◌≤◌, ◌≡◌, refl, sym, true, none, some, List, [], ◌∷◌, all, arith, aware, Str, Text, All,
}
use mathlib.Core.Path.{subst}
use identify.Base.Result.{ok}
use identify.Domain.Alert.{Uuid}
use identify.Domain.Operation.{Operation}
use identify.Domain.WorkSession.{mem}
use identify.Engine.Stability.Defs.{PpeStabilitySnapshot}
use identify.Engine.Safety.Defs.{PpeSafetyAssessment}
use identify.Engine.Safety.Laws.{Seen}
use identify.Services.Sessions.Defs.{SessionService, same_set, required_ids, start}
use identify.Services.Sessions.Laws.{GoodIds, started_session, start_succeeds}
use identify.Vision.Tracking.Defs.{Arithmetic}
use identify.Control.Inference.Defs.{PpeInferenceController, Page}
use identify.Control.Inference.Invariant.{IsEvidence}
use identify.Control.Inference.Release.{
  authorization_of, IsReleasable, compliant_lem, verified_lem, some_items, evidence_authorizes,
}

all-mem_later :
    (xs ys : List ℕ) (y : ℕ) → all (λ x. mem x ys) xs ≡ true → all (λ x. mem x (y ∷ ys)) xs ≡ true
all-mem_later [] ys y h = refl
all-mem_later (x ∷ xs) ys y h = ground (arith, all-mem_later xs ys y)

all-mem : (xs : List ℕ) → all (λ x. mem x xs) xs ≡ true
all-mem [] = refl
all-mem (x ∷ xs) = ground (arith, all-mem_later xs xs x (all-mem xs))

same_set_refl : (xs : List ℕ) → same_set xs xs ≡ true
unfolding same_set
same_set_refl xs = rw (all-mem xs) refl

module _ {F : Type 0} (num : Arithmetic F) (py : Str) where
  -- If a request is released on an assessment that rests on evidence, then the service, with no
  -- session current and identifiers that a session accepts, starts the assessed operation at any
  -- instant from the release on that is not later than the maximum age; each required item of that
  -- operation has been seen, and its identifier is that of the operation on the page.
  pub release_starts :
      (page : Page) (c : PpeInferenceController F) (operation_id : ℕ) (now at : F)
      (shown o : Operation) (a : PpeSafetyAssessment) (classes : List Text)
      (frames : PpeStabilitySnapshot F) (s : SessionService) (operator_id utc t : ℕ)
      (session_id : Uuid)
      → IsReleasable num page c operation_id now shown a at
      → IsEvidence py o classes frames a
      → s.current ≡ none
      → utc ≤ t
      → t ≤ utc + s.maximum_authorization_age
      → GoodIds operator_id o
      → let w = started_session operator_id o (authorization_of a utc) t session_id in
        (start s operator_id o (authorization_of a utc) (aware t) session_id
          ≡ (ok w, record s { current = some w }))
        × (o.operation_id ≡ shown.operation_id)
        × All (Seen py classes frames) o.required_ppe
  release_starts page c operation_id now at shown o a classes frames s operator_id utc t session_id
        r e idle before fresh good =
      let (active, some_required, seen) = compliant_lem py o classes frames a e r.compliant in
      let (same_id, same_items) = verified_lem py o classes frames a e in
      (
        start_succeeds s operator_id o (authorization_of a utc) t session_id
            (record {
              idle = idle;
              operation_active = active;
              same_operation = same_id;
              some_ppe = some_items py o classes frames o.required_ppe some_required;
              all_ppe =
                  subst (λ xs. same_set xs (required_ids o) ≡ true) (sym same_items)
                    (same_set_refl (required_ids o));
              verified_before = before;
              fresh = fresh;
            })
            (evidence_authorizes py o classes frames a utc e r.compliant) good,
        omega (arith, same_id, r.same_operation, r.same_assessed),
        seen,
      )
