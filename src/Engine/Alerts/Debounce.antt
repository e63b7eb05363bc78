-- ===== src/Engine/Alerts/Debounce.antt =====
-- When `AlertEngine` raises an alert, in terms of the calls that it has taken.
use identify.Base.{
  ℕ, ◌+◌, ◌≤◌, ◌≡◌, refl, sym, ◌∙◌, ap, true, inl, inr, Option, none, some, List, ◌∷◌, map, length,
  arith, Option-cases, Str, Text,
}
use mathlib.Core.Path.{subst}
use mathlib.Core.Option
use identify.Base.Dict.{lookup, contains}
use identify.Domain.Alert.{SafetyViolation, SafetyAlert}
use identify.Domain.WorkSession.{WorkSession}
use identify.Engine.Alerts.Defs.{Settings, ConditionState, AlertEngine, note, can_raise}
use identify.Engine.Alerts.Spec.{decide, after, absent, SeenBefore, new_alert}
use identify.Engine.Alerts.Loops.{observed}
use identify.Engine.Alerts.Normalize.{keyed}
use identify.Engine.Alerts.Theorems.{CanObserve, observe-absent, observe-observed}
use identify.Engine.Alerts.History.{
  alert_of, next, Call, streak, since, closed_at, Run, Agrees, note_counts, Run-IsValid, Run-Agrees,
}

-- no alert was closed, or the cooldown is over since
abbrev pub IsCool : Settings → ℕ → Option ℕ → Type 0
IsCool cfg t none = Unit
IsCool cfg t (some closed) = closed + cfg.cooldown ≤ t

-- Why an alert may be raised by a call at `t` that observes the condition, after the calls `past`:
-- enough observations in a row, this one included, over a long enough time, and no cooldown that has
-- not passed since an alert was closed.
pub record IsDebounced (cfg : Settings) (t : ℕ) (past : List Call) : Type 0 where
  pub observations : cfg.minimum_consecutive_observations ≤ length (t ∷ streak past)
  pub persistence : since t (streak past) + cfg.minimum_persistence ≤ t
  pub cooldown : IsCool cfg t (closed_at past)

SeenBefore-IsCool :
    (cfg : Settings) (t : ℕ) (closed : Option ℕ)
    → SeenBefore t (Option.map (λ c. c + cfg.cooldown) closed) ≡ IsCool cfg t closed
SeenBefore-IsCool cfg t none = refl
SeenBefore-IsCool cfg t (some c) = refl

raised_by_decision :
    (cfg : Settings) (ws : WorkSession ℕ) (t id : ℕ) (s : ConditionState) {a : SafetyAlert ℕ}
    → s.active_alert ≡ none
    → (after (decide cfg ws t id s) s).active_alert ≡ some a
    → (a.raised_at ≡ t)
      × (s.first_observed_at ≡ some a.first_observed_at)
      × (cfg.minimum_consecutive_observations ≤ s.consecutive_observations)
      × (a.first_observed_at + cfg.minimum_persistence ≤ t)
      × SeenBefore t s.next_raise_allowed_at
unfolding decide can_raise
raised_by_decision cfg ws t id s {a} idle h = elim (Option-cases s.next_raise_allowed_at) [
  | inl free ↦ ground arith
  | inr (n, waits) ↦ ground arith
]

decision_raises :
    (cfg : Settings) (ws : WorkSession ℕ) (t id : ℕ) (s : ConditionState) (first : ℕ)
    → s.active_alert ≡ none
    → s.first_observed_at ≡ some first
    → cfg.minimum_consecutive_observations ≤ s.consecutive_observations
    → first + cfg.minimum_persistence ≤ t
    → SeenBefore t s.next_raise_allowed_at
    → (after (decide cfg ws t id s) s).active_alert ≡ some (new_alert cfg ws s t id first)
unfolding decide can_raise
decision_raises cfg ws t id s first idle seen enough long cool =
    elim (Option-cases s.next_raise_allowed_at) [
      | inl free ↦ ground arith
      | inr (n, waits) ↦ ground arith
    ]

module _ (cfg : Settings) (ws : WorkSession ℕ) (t id : ℕ) (v : SafetyViolation) (past : List Call)
    (known : Option ConditionState) where
  observed_raises :
      {a : SafetyAlert ℕ}
      → Agrees cfg past known
      → alert_of known ≡ none
      → (observed cfg ws t id v known).active_alert ≡ some a
      → IsDebounced cfg t past × (a.raised_at ≡ t) × (a.first_observed_at ≡ since t (streak past))
  observed_raises {a} h idle raised =
      let (count, first, next_raise, open_alert) =
        note_counts cfg t past v (streak past) known h.count h.first in
      let (now, began, enough, long, cool) =
        raised_by_decision cfg ws t id (note v t known) {a = a} (open_alert ∙ idle) raised in
      let same : a.first_observed_at ≡ since t (streak past) = ground (arith, sym began ∙ first) in
      (
        record {
          observations = omega (arith, enough, count);
          persistence = omega (arith, long, same);
          cooldown =
              subst (λ (P : Type 0). P) (SeenBefore-IsCool cfg t (closed_at past))
                (subst (SeenBefore t) (next_raise ∙ h.cooldown) cool);
        },
        now,
        same,
      )

  observed_raised :
      Agrees cfg past known
      → alert_of known ≡ none
      → IsDebounced cfg t past
      → (observed cfg ws t id v known).active_alert
        ≡ some (new_alert cfg ws (note v t known) t id (since t (streak past)))
  observed_raised h idle d =
      let (count, first, next_raise, open_alert) =
        note_counts cfg t past v (streak past) known h.count h.first in
      decision_raises cfg ws t id (note v t known) (since t (streak past)) (open_alert ∙ idle) first
        (omega (arith, d.observations, count)) d.persistence
        (subst (SeenBefore t) (sym (next_raise ∙ h.cooldown))
          (subst (λ (P : Type 0). P) (sym (SeenBefore-IsCool cfg t (closed_at past))) d.cooldown))

-- a state that is open after the step `absent` was open before it
absent_closes :
    (cfg : Settings) (t : ℕ) (known : Option ConditionState)
    → alert_of known ≡ none
    → alert_of (Option.map (absent cfg t) known) ≡ none
unfolding absent
absent_closes cfg t none h = refl
absent_closes cfg t (some s) h = ground arith

module _ (py : Str) (cfg : Settings) (ws : WorkSession ℕ) (violations : List SafetyViolation)
    (t : ℕ) (j : Text) {past : List Call} {e : AlertEngine} where
  -- After any accepted calls of a new or reset engine, a condition without an open alert has one
  -- after a further accepted call only if the call observes it, if the calls in a row that observed
  -- it, this one included, are at least the configured number and go back the configured time, and
  -- if the cooldown has passed since the last call that closed an alert of it; the alert is raised
  -- at the instant of the call and first observed at the first of those in a row.
  pub observe_debounces :
      {a : SafetyAlert ℕ}
      → Run py cfg j past e
      → CanObserve py ws violations t e
      → alert_of (lookup j e.states) ≡ none
      → alert_of (lookup j (next py cfg ws violations t e).states) ≡ some a
      → (contains j (map keyed violations) ≡ true)
        × IsDebounced cfg t past
        × (a.raised_at ≡ t)
        × (a.first_observed_at ≡ since t (streak past))
  observe_debounces {a} r c idle raised = elim (Option-cases (lookup j (map keyed violations))) [
    | inl unseen ↦
        let closed = absent_closes cfg t (lookup j e.states) idle in
        let step = observe-absent py cfg ws violations t e j c (Run-IsValid py cfg j r) unseen in
        absurd (ground (arith, ap alert_of step))
    | inr (v, seen) ↦
        let (n, step) =
          observe-observed py cfg ws violations t e j v c (Run-IsValid py cfg j r) seen in
        let (d, now, first) =
          observed_raises cfg ws t (cfg.alert_id_factory n) v past (lookup j e.states) {a = a}
            (Run-Agrees py cfg j r) idle (sym (ap alert_of step) ∙ raised) in
        (rw seen refl, d, now, first)
  ]

  -- After any accepted calls of a new or reset engine, a further accepted call that observes a
  -- condition without an open alert leaves it with one, raised at the instant of the call and first
  -- observed at the first of the calls in a row that observed it, if these, this one included, are
  -- at least the configured number and go back the configured time, and if the cooldown has passed
  -- since the last call that closed an alert of it.
  pub observe_raises :
      Run py cfg j past e
      → CanObserve py ws violations t e
      → contains j (map keyed violations) ≡ true
      → alert_of (lookup j e.states) ≡ none
      → IsDebounced cfg t past
      → (a : SafetyAlert ℕ) × (alert_of (lookup j (next py cfg ws violations t e).states) ≡ some a)
        × (a.raised_at ≡ t)
        × (a.first_observed_at ≡ since t (streak past))
  observe_raises r c seen idle d = elim (Option-cases (lookup j (map keyed violations))) [
    | inl unseen ↦ absurd (ground arith)
    | inr (v, found) ↦
        let (n, step) =
          observe-observed py cfg ws violations t e j v c (Run-IsValid py cfg j r) found in
        (
          new_alert cfg ws (note v t (lookup j e.states)) t (cfg.alert_id_factory n)
              (since t (streak past)),
          ap alert_of step
              ∙ observed_raised cfg ws t (cfg.alert_id_factory n) v past (lookup j e.states)
                  (Run-Agrees py cfg j r) idle d,
          refl,
          refl,
        )
  ]
