-- ===== src/Services/SafetyState/Laws.antt =====
-- What the snapshot of the open alerts reports:
-- 2identify_operador/app/services/safety_state_service.py.
use identify.Base.{
  ℕ, ◌≤◌, ◌≡◌, refl, sym, true, false, not, ◌&&◌, ◌||◌, Option, none, some, List, [], ◌∷◌, map,
  arith, All, any, ltb, opt_all, is_empty, Bool-cases, Option-cases, inl, inr, Text, text_eq,
  text_eq_iff, text_lt-asym, text_lt-negative, Str, normalize, aware,
}
use mathlib.Core.List.{Perm}
use mathlib.Core.Path.{subst}
use identify.Base.Result.{ok}
use identify.Base.Sort.{sorted, insert_sorted, All-sorted, sorted-perm, sorted-IsSorted, IsSorted}
use identify.Domain.Alert.{SafetyAlert, is_active, is_positive, deduplication_key}
use identify.Domain.Operation.{mem_text}
use identify.Domain.WorkSession.{WorkSession}
use identify.Services.SafetyState.Defs.{
  SafetyConditionState, SafetyStateSnapshot, reason_by_violation, condition_init, unique_ids,
  snapshot_init, level_of, condition_lt, collect_conditions, from_alerts,
}

ids : List (SafetyConditionState ℕ) → List Text
ids cs = map (λ c. c.condition_id) cs

mem_text-insert_sorted :
    (k : Text) (c : SafetyConditionState ℕ) (cs : List (SafetyConditionState ℕ))
    → mem_text k (map (λ d. d.condition_id) (insert_sorted condition_lt c cs))
      ≡ (text_eq k c.condition_id || mem_text k (map (λ d. d.condition_id) cs))
unfolding insert_sorted
mem_text-insert_sorted k c [] = refl
mem_text-insert_sorted k c (d ∷ cs) = elim (Bool-cases (condition_lt d c)) [
  | inl later ↦ ground (arith, mem_text-insert_sorted k c cs)
  | inr here ↦ ground arith
]

unique_ids-insert_sorted :
    (c : SafetyConditionState ℕ) (cs : List (SafetyConditionState ℕ))
    → unique_ids (insert_sorted condition_lt c cs)
      ≡ (not (mem_text c.condition_id (map (λ d. d.condition_id) cs)) && unique_ids cs)
unfolding insert_sorted
unique_ids-insert_sorted c [] = refl
unique_ids-insert_sorted c (d ∷ cs) = elim (Bool-cases (condition_lt d c)) [
  | inl later ↦ ground (
    arith,
    unique_ids-insert_sorted c cs,
    mem_text-insert_sorted d.condition_id c cs,
    text_eq_iff c.condition_id d.condition_id,
    text_eq_iff d.condition_id c.condition_id,
  )
  | inr here ↦ ground arith
]

mem_text-sorted :
    (k : Text) (cs : List (SafetyConditionState ℕ))
    → mem_text k (map (λ d. d.condition_id) (sorted condition_lt cs))
      ≡ mem_text k (map (λ d. d.condition_id) cs)
unfolding sorted
mem_text-sorted k [] = refl
mem_text-sorted k (c ∷ cs) =
    ground (arith, mem_text-insert_sorted k c (sorted condition_lt cs), mem_text-sorted k cs)

unique_ids-sorted :
    (cs : List (SafetyConditionState ℕ)) → unique_ids (sorted condition_lt cs) ≡ unique_ids cs
unfolding sorted
unique_ids-sorted [] = refl
unique_ids-sorted (c ∷ cs) = ground (
  arith,
  unique_ids-insert_sorted c (sorted condition_lt cs),
  mem_text-sorted c.condition_id cs,
  unique_ids-sorted cs,
)

-- The condition of an alert, or none for what the hardware does not show.
abbrev pub condition_of : SafetyAlert ℕ → Option (SafetyConditionState ℕ)
condition_of alert = elim (reason_by_violation alert.violation.violation_type) [
  | none ↦ none
  | some reason ↦ some (record {
    condition_id = deduplication_key alert.violation;
    reason = reason;
    level = level_of alert.violation.severity;
    first_observed_at = alert.first_observed_at;
  })
]

abbrev pub conditions_of : List (SafetyAlert ℕ) → List (SafetyConditionState ℕ)
conditions_of [] = []
conditions_of (alert ∷ alerts) = elim (condition_of alert) [
  | none ↦ conditions_of alerts
  | some c ↦ c ∷ conditions_of alerts
]

-- An open alert that began by an instant, whose key the normalisation leaves alone.
pub record IsReportable (py : Str) (t : ℕ) (alert : SafetyAlert ℕ) : Type 0 where
  pub opened : is_active alert.status ≡ true
  pub normal : normalize py (deduplication_key alert.violation) ≡ deduplication_key alert.violation
  pub named : is_empty (deduplication_key alert.violation) ≡ false
  pub begun : alert.first_observed_at ≤ t

module _ (py : Str) (t : ℕ) where
  collect_conditions_lem :
      (alerts : List (SafetyAlert ℕ))
      → All (IsReportable py t) alerts
      → collect_conditions py alerts ≡ ok (conditions_of alerts)
  unfolding collect_conditions condition_init
  collect_conditions_lem [] h = refl
  collect_conditions_lem (alert ∷ alerts) h =
      elim (Option-cases (reason_by_violation alert.violation.violation_type)) [
        | inl hidden ↦ ground (arith, collect_conditions_lem alerts h.1)
        | inr (reason, shown) ↦ ground (arith, collect_conditions_lem alerts h.1)
      ]

  conditions_of-begun :
      (alerts : List (SafetyAlert ℕ))
      → All (IsReportable py t) alerts
      → All (λ c. c.first_observed_at ≤ t) (conditions_of alerts)
  conditions_of-begun [] h = tt
  conditions_of-begun (alert ∷ alerts) h =
      elim (Option-cases (reason_by_violation alert.violation.violation_type)) [
        | inl hidden ↦
            let e : conditions_of (alert ∷ alerts) ≡ conditions_of alerts = ground arith in
            subst (All (λ c. c.first_observed_at ≤ t)) (sym e) (conditions_of-begun alerts h.1)
        | inr (reason, shown) ↦
            let c : SafetyConditionState ℕ = record {
              condition_id = deduplication_key alert.violation;
              reason = reason;
              level = level_of alert.violation.severity;
              first_observed_at = alert.first_observed_at;
            } in
            let e : conditions_of (alert ∷ alerts) ≡ c ∷ conditions_of alerts = ground arith in
            subst (All (λ c. c.first_observed_at ≤ t)) (sym e)
              (h.0.begun, conditions_of-begun alerts h.1)
      ]

  not_late :
      (cs : List (SafetyConditionState ℕ))
      → All (λ c. c.first_observed_at ≤ t) cs
      → any (λ c. ltb t c.first_observed_at) cs ≡ false
  not_late [] h = refl
  not_late (c ∷ cs) h = ground (arith, not_late cs h.1)

-- For a session with a positive operation and no camera or a positive one, and open alerts that
-- began by the instant, with non-empty normalised keys that differ among those shown, the snapshot
-- is built with the session's identifier, operation and camera and the instant, and one condition
-- for each alert of a kind that is shown, ordered by identifier.
pub from_alerts_lem :
    (py : Str) (ws : WorkSession ℕ) (alerts : List (SafetyAlert ℕ)) (t : ℕ)
    → is_positive ws.operation_id ≡ true
    → opt_all is_positive ws.camera_id ≡ true
    → All (IsReportable py t) alerts
    → unique_ids (conditions_of alerts) ≡ true
    → (s : SafetyStateSnapshot ℕ) × (from_alerts py ws alerts (aware t) ≡ ok s)
      × (s.work_session_id ≡ ws.session_id)
      × (s.operation_id ≡ ws.operation_id)
      × (s.camera_id ≡ ws.camera_id)
      × (s.observed_at ≡ t)
      × Perm s.conditions (conditions_of alerts)
      × IsSorted condition_lt s.conditions
unfolding from_alerts snapshot_init
from_alerts_lem py ws alerts t positive camera reportable distinct =
    let cs = conditions_of alerts in
    (
      record {
        work_session_id = ws.session_id;
        operation_id = ws.operation_id;
        camera_id = ws.camera_id;
        observed_at = t;
        conditions = sorted condition_lt cs;
      },
      ground (
        arith,
        collect_conditions_lem py t alerts reportable,
        unique_ids-sorted cs,
        not_late py t (sorted condition_lt cs) (
            All-sorted condition_lt (λ c. c.first_observed_at ≤ t) cs
              (conditions_of-begun py t alerts reportable)),
      ),
      refl,
      refl,
      refl,
      refl,
      sorted-perm condition_lt cs,
      sorted-IsSorted condition_lt (λ a b. text_lt-asym a.condition_id b.condition_id)
          (λ a b c. text_lt-negative a.condition_id b.condition_id c.condition_id) cs,
    )
