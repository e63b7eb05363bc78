-- ===== src/Engine/Alerts/Step.antt =====
-- The body of each loop of `AlertEngine.observe` is the automaton of `Spec`.
use identify.Base.{
  ℕ, ◌+◌, ◌≤◌, ◌≡◌, refl, Option, none, some, List, ◌++◌, arith, Option-cases, inl, inr, Str, Text,
}
use identify.Base.Dict.{insert, lookup, insert-insert}
use identify.Base.Result.{ok}
use identify.Domain.Alert.{SafetyViolation, SafetyAlert, alert_end, alert_init, critical}
use identify.Domain.Alert.Laws.{
  IsViolation, violation_init-severity, resolve_lem, alert_init-violation,
}
use identify.Domain.WorkSession.{WorkSession}
use mathlib.Core.List.{append-nil}
use identify.Engine.Alerts.Defs.{
  Settings, ConditionState, AlertEngine, Changes, temporal_severity, note, raise_alert, escalate,
  escalate_active, raise_or_escalate, observe_violation, clear_condition,
}
use identify.Engine.Alerts.Spec.{
  new_alert, severity_at, with_critical, decide, after, report, issue, absent, resolution, IsOpen,
  IsTracked, IsSession,
}

pub escalate_lem :
    (py : Str) (t : ℕ) (a : SafetyAlert ℕ) → IsOpen py t a → escalate py a ≡ ok (with_critical a)
unfolding escalate
escalate_lem py t a o =
    rw (escalate, violation_init-severity py a.violation critical o.violation_built)
      (alert_init-violation a (record a.violation { severity = critical }) o.built)

note_seen :
    (v : SafetyViolation) (t : ℕ) (known : Option ConditionState)
    → (first : ℕ) × ((note v t known).first_observed_at ≡ some first)
unfolding note
note_seen v t none = (t, refl)
note_seen v t (some s) = elim (Option-cases s.first_observed_at) [
  | inl fresh ↦ (t, ground arith)
  | inr (first, seen) ↦ (first, ground arith)
]

module _ (py : Str) (cfg : Settings) (ws : WorkSession ℕ) (t : ℕ) where
  -- A new alert passes the checks of `SafetyAlert`.
  pub raise_alert_lem :
      (s : ConditionState) (first : ℕ) (e : AlertEngine)
      → IsSession ws
      → IsViolation py s.violation
      → s.first_observed_at ≡ some first
      → first ≤ t
      → raise_alert py cfg ws s t e ≡ (
        ok (new_alert cfg ws s t (cfg.alert_id_factory e.issued) first),
        record e { issued = e.issued + 1 },
      )
  unfolding raise_alert temporal_severity alert_init alert_end
  raise_alert_lem s first e w b seen le =
      ground (arith, violation_init-severity py s.violation (severity_at cfg first t) b)

  -- The branches of the first loop, when the constructors accept what is built.
  raise_or_escalate_lem :
      (key : Text) (s : ConditionState) (first : ℕ) (changes : Changes) (e : AlertEngine)
      → IsSession ws
      → IsTracked py t s
      → s.first_observed_at ≡ some first
      → let d = decide cfg ws t (cfg.alert_id_factory e.issued) s in
        raise_or_escalate py cfg ws t key s changes (record e { states = insert key s e.states })
        ≡ (
          ok (report d changes),
          record e { states = insert key (after d s) e.states; issued = issue d e.issued },
        )
  unfolding raise_or_escalate decide escalate_active temporal_severity
  raise_or_escalate_lem key s first (raised, escalated) e w k seen =
      elim (Option-cases s.active_alert) [
        | inl idle ↦ ground (
          arith,
          raise_alert_lem s first (record e { states = insert key s e.states }) w k.built seen,
          insert-insert key s
              (record s {
                active_alert = some (new_alert cfg ws s t (cfg.alert_id_factory e.issued) first);
              })
              e.states,
        )
        | inr (a, is_open) ↦ ground (
          arith,
          escalate_lem py t a,
          insert-insert key s (record s { active_alert = some (with_critical a) }) e.states,
        )
      ]

  -- The body of the first loop, when the constructors accept what is built.
  pub observe_violation_lem :
      (key : Text) (v : SafetyViolation) (changes : Changes) (e : AlertEngine)
      → IsSession ws
      → IsTracked py t (note v t (lookup key e.states))
      → let s = note v t (lookup key e.states) in
        let d = decide cfg ws t (cfg.alert_id_factory e.issued) s in
        observe_violation py cfg ws t key v changes e ≡ (
          ok (report d changes),
          record e { states = insert key (after d s) e.states; issued = issue d e.issued },
        )
  unfolding observe_violation
  observe_violation_lem key v changes e w k =
      let (first, seen) = note_seen v t (lookup key e.states) in
      raise_or_escalate_lem key (note v t (lookup key e.states)) first changes e w k seen

-- The body of the second loop: the condition's new state, and the alert that it resolves.
pub clear_condition_lem :
    (py : Str) (cfg : Settings) (t : ℕ) (key : Text) (s : ConditionState)
    (resolved : List (SafetyAlert ℕ)) (e : AlertEngine)
    → IsTracked py t s
    → clear_condition cfg t key s resolved e ≡ (
      ok (resolved ++ resolution cfg t s),
      record e { states = insert key (absent cfg t s) e.states },
    )
unfolding clear_condition absent resolution
clear_condition_lem py cfg t key s resolved e k = elim (Option-cases s.active_alert) [
  | inl idle ↦ ground (arith, append-nil resolved)
  | inr (a, is_open) ↦ ground (
    arith,
    append-nil resolved,
    resolve_lem a t,
    insert-insert key
        (record s {
          consecutive_observations = 0;
          first_observed_at = none;
          consecutive_clear_observations = s.consecutive_clear_observations + 1;
        })
        (record s {
          consecutive_observations = 0;
          first_observed_at = none;
          consecutive_clear_observations = 0;
          active_alert = none;
          next_raise_allowed_at = some (t + cfg.cooldown);
        })
        e.states,
  )
]
