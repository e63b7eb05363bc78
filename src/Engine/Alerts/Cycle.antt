-- ===== src/Engine/Alerts/Cycle.antt =====
-- 2identify_operador/app/engine/alert.py, `AlertEngine.observe`: one complete observation cycle.
use identify.Base.{
  ℕ, Bool, false, not, ◌&&◌, ◌||◌, none, some, List, [], ◌∷◌, ltb, ◌==◌, if◌then◌else◌, DateTime,
  as_utc, text_lt, Str,
}
use identify.Base.Dict.{Dict, contains, insert}
use identify.Base.Result.{Result, ok, err, value_error, raise_if, or_raise}
use identify.Base.Sort.{sorted}
use identify.Domain.Alert.{Uuid, SafetyViolation, SafetyAlert, deduplication_key}
use identify.Domain.WorkSession.{WorkSession}
use identify.Domain.WorkSession
use identify.Engine.Alerts.Defs.{
  Settings, ConditionState, AlertEngine, AlertEngineUpdate, update_init, Method, ◌>>=◌, ◌>>◌, lift,
  gets, modify, observe_current, clear_absent,
}

-- `_normalize_violations`, with the dictionary built so far
unfoldable pub collect_violations :
    Dict SafetyViolation → List SafetyViolation → Result (Dict SafetyViolation)
collect_violations result [] = ok result
collect_violations result (v ∷ vs) =
    let key = deduplication_key v in
    let rest = collect_violations (insert key v result) vs in
    if contains key result then err value_error else rest

unfoldable pub normalize_violations : List SafetyViolation → Result (Dict SafetyViolation)
normalize_violations = collect_violations []

-- the alerts of the generator in `_active_alerts`
unfoldable pub open_alerts : Dict ConditionState → List (SafetyAlert ℕ)
open_alerts [] = []
open_alerts ((key, s) ∷ rest) = elim s.active_alert [
  | none ↦ open_alerts rest
  | some a ↦ a ∷ open_alerts rest
]

-- the first test of `observe` on the session that the engine is bound to, and the binding
unfoldable pub bind_session : Uuid → Method (Unit {0})
bind_session session_id e = elim e.work_session_id [
  | none ↦ (ok tt, record e { work_session_id = some session_id })
  | some bound ↦ if bound == session_id then (ok tt, e) else (err value_error, e)
]

module _ (cfg : Settings) where
  -- the order of `_active_alerts`: by the instant of the alert, then by the text of its identifier
  unfoldable pub alert_lt : SafetyAlert ℕ → SafetyAlert ℕ → Bool
  alert_lt a b =
      ltb a.raised_at b.raised_at
      || ((a.raised_at == b.raised_at)
          && text_lt (cfg.str_uuid a.alert_id) (cfg.str_uuid b.alert_id))

  -- `_active_alerts`
  unfoldable pub active_alerts : AlertEngine → List (SafetyAlert ℕ)
  active_alerts e = sorted alert_lt (open_alerts e.states)

module _ (py : Str) (cfg : Settings) where
  -- the two loops, and the update that they give
  unfoldable pub process : WorkSession ℕ → ℕ → Dict SafetyViolation → Method AlertEngineUpdate
  process ws observed_at current = do
    (raised, escalated) ← observe_current py cfg ws observed_at current ([], [])
    states ← gets (λ e. e.states)
    resolved ← clear_absent cfg observed_at current states []
    active ← gets (active_alerts cfg)
    lift (
        update_init (record {
          raised_alerts = raised;
          resolved_alerts = resolved;
          active_alerts = active;
          escalated_alerts = escalated;
        }))

  -- `observe`
  unfoldable pub observe :
      WorkSession ℕ → List SafetyViolation → DateTime → Method AlertEngineUpdate
  observe ws violations observed_at = do
    lift (raise_if (not (WorkSession.is_active ws.status)) value_error)
    now ← lift (or_raise (as_utc observed_at) value_error)
    lift (raise_if (ltb now ws.started_at) value_error)
    last ← gets (λ e. e.last_observed_at)
    lift (raise_if (elim last [ none ↦ false | some before ↦ ltb now before ]) value_error)
    bind_session ws.session_id
    modify (λ e. record e { last_observed_at = some now })
    current ← lift (normalize_violations violations)
    process ws now current
