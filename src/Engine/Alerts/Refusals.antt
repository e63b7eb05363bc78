-- ===== src/Engine/Alerts/Refusals.antt =====
-- What `AlertEngine.observe` refuses, and the order in which it lists the open alerts.
use identify.Base.{
  ℕ, ◌≤◌, ◌<◌, ◌≡◌, ◌≢◌, sym, ◌∙◌, ap, inl, inr, true, false, some, List, [], ◌∷◌, ◌++◌, map, arith,
  Bool-cases, Str, text_lt-asym, text_lt-negative, naive, aware, DateTime,
}
use mathlib.Core.Path.{subst}
use mathlib.Core.List.{Perm, append-nil, append_assoc}
use identify.Base.Dict.{Dict, Distinct, contains, insert, insert-Distinct}
use identify.Base.Result.{err, value_error}
use identify.Base.Sort.{sorted-perm, sorted-IsSorted, IsSorted}
use identify.Domain.Alert.{SafetyViolation, SafetyAlert, deduplication_key, Uuid}
use identify.Domain.WorkSession.{WorkSession}
use identify.Domain.WorkSession
use identify.Engine.Alerts.Defs.{Settings, AlertEngine}
use identify.Engine.Alerts.Cycle.{
  collect_violations, normalize_violations, open_alerts, bind_session, alert_lt, active_alerts,
  observe,
}
use identify.Engine.Alerts.Normalize.{keyed, insert_absent}
use identify.Engine.Alerts.Spec.{SeenBefore}
use identify.Engine.Alerts.Theorems.{BoundTo, begun}

-- The calls that `observe` refuses before it looks at the violations.
pub data IsRefused (ws : WorkSession ℕ) (e : AlertEngine) : DateTime → Type 0 where
  inactive : {at : DateTime} → WorkSession.is_active ws.status ≡ false → IsRefused ws e at
  without_zone : (t : ℕ) → IsRefused ws e (naive t)
  before_session : (t : ℕ) → t < ws.started_at → IsRefused ws e (aware t)
  backwards : (t last : ℕ) → e.last_observed_at ≡ some last → t < last → IsRefused ws e (aware t)
  other_session :
      {at : DateTime} (bound : Uuid)
      → e.work_session_id ≡ some bound
      → bound ≢ ws.session_id
      → IsRefused ws e at

-- A call with an inactive session, a naive instant, an instant before the
-- Services.Sessions.Defs.start of the session or before the last call, or a session that the engine
-- is not bound to raises ValueError and leaves the engine as it was.
pub observe_refuses :
    (py : Str) (cfg : Settings) (ws : WorkSession ℕ) (violations : List SafetyViolation)
    (e : AlertEngine) {at : DateTime}
    → IsRefused ws e at
    → observe py cfg ws violations at e ≡ (err value_error, e)
unfolding observe bind_session
observe_refuses py cfg ws violations e (inactive h) = ground arith
observe_refuses py cfg ws violations e (without_zone t) = ground arith
observe_refuses py cfg ws violations e (before_session t h) = ground arith
observe_refuses py cfg ws violations e (backwards t last h lt) = ground arith
observe_refuses py cfg ws violations e (other_session {at = naive t} bound h ne) = ground arith
observe_refuses py cfg ws violations e (other_session {at = aware t} bound h ne) = ground arith

collect-err :
    (result : Dict SafetyViolation) (vs : List SafetyViolation)
    → Distinct result
    → ¬ Distinct (result ++ map keyed vs)
    → collect_violations result vs ≡ err value_error
unfolding collect_violations
collect-err result [] d h = absurd (h (subst Distinct (sym (append-nil result)) d))
collect-err result (v ∷ vs) d h = elim (Bool-cases (contains (deduplication_key v) result)) [
  | inl twice ↦ ground arith
  | inr once ↦
      let fresh = insert_absent (deduplication_key v) v result once in
      let regroup = append_assoc result (keyed v ∷ []) (map keyed vs) in
      ground (
        arith,
        collect-err (insert (deduplication_key v) v result) vs
            (insert-Distinct (deduplication_key v) v result d)
            (λ k. h (
              subst Distinct (ap (λ (p : Dict SafetyViolation). p ++ map keyed vs) fresh ∙ regroup)
                k)),
      )
]

-- A call with an active session of the engine and an instant not before the last one that reports a
-- key twice raises ValueError; the states of the conditions stay, but the session is bound and the
-- clock advanced.
pub observe_duplicates :
    (py : Str) (cfg : Settings) (ws : WorkSession ℕ) (violations : List SafetyViolation) (t : ℕ)
    (e : AlertEngine)
    → WorkSession.is_active ws.status ≡ true
    → ws.started_at ≤ t
    → SeenBefore t e.last_observed_at
    → BoundTo ws.session_id e.work_session_id
    → ¬ Distinct (map keyed violations)
    → observe py cfg ws violations (aware t) e ≡ (err value_error, begun ws t e)
unfolding observe bind_session normalize_violations
observe_duplicates py cfg ws violations t e is_active started forward bound h =
    ground (arith, collect-err [] violations tt h)

alert_lt-asym :
    (cfg : Settings) (a b : SafetyAlert ℕ) → alert_lt cfg a b ≡ true → alert_lt cfg b a ≡ false
unfolding alert_lt
alert_lt-asym cfg a b h =
    ground (arith, text_lt-asym (cfg.str_uuid a.alert_id) (cfg.str_uuid b.alert_id))

alert_lt-negative :
    (cfg : Settings) (a b c : SafetyAlert ℕ)
    → alert_lt cfg b a ≡ false
    → alert_lt cfg c b ≡ false
    → alert_lt cfg c a ≡ false
unfolding alert_lt
alert_lt-negative cfg a b c h k = ground (
  arith,
  text_lt-negative (cfg.str_uuid a.alert_id) (cfg.str_uuid b.alert_id) (cfg.str_uuid c.alert_id),
)

-- The list of active alerts is a permutation of the open alerts of the conditions, ordered by the
-- instant of raising and then by the text of the identifier.
pub active_alerts_lem :
    (cfg : Settings) (e : AlertEngine)
    → Perm (active_alerts cfg e) (open_alerts e.states)
      × IsSorted (alert_lt cfg) (active_alerts cfg e)
unfolding active_alerts
active_alerts_lem cfg e = (
  sorted-perm (alert_lt cfg) (open_alerts e.states),
  sorted-IsSorted (alert_lt cfg) (alert_lt-asym cfg) (alert_lt-negative cfg) (open_alerts e.states),
)
