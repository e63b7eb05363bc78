-- ===== src/Engine/Alerts/Lifecycle.antt =====
-- An open alert of `AlertEngine` while its condition goes on, and how it ends.
use identify.Base.{
  ℕ, suc, ◌+◌, ◌≤◌, ◌<◌, ◌≡◌, refl, sym, ◌∙◌, ap, true, ◌⊎◌, ◌↔◌, inl, inr, none, some, List, map,
  arith, leb, Bool-cases, Option-cases, Str, Text,
}
use mathlib.Core.Path.{subst}
use mathlib.Core.Option
use identify.Base.Dict.{lookup, contains}
use identify.Domain.Alert.{SafetyViolation, SafetyAlert, critical}
use identify.Domain.WorkSession.{WorkSession}
use identify.Engine.Alerts.Defs.{Settings, ConditionState, AlertEngine, note, must_escalate}
use identify.Engine.Alerts.Spec.{decide, after, absent}
use identify.Engine.Alerts.Normalize.{keyed}
use identify.Engine.Alerts.Theorems.{
  CanObserve, IsValid, clock, observe_total, observe-absent, observe-observed,
}
use identify.Engine.Alerts.History.{
  alert_of, next, Call, streak, since, Run, note_counts, Run-IsValid, Run-Agrees,
}

-- `b` is the alert `a`, and it is critical if `a` is, or if its condition has lasted.
pub record Continues (cfg : Settings) (t first : ℕ) (a b : SafetyAlert ℕ) : Type 0 where
  pub same_id : b.alert_id ≡ a.alert_id
  pub same_raised_at : b.raised_at ≡ a.raised_at
  pub same_first : b.first_observed_at ≡ a.first_observed_at
  pub severity :
      (b.violation.severity ≡ critical)
      ↔ ((a.violation.severity ≡ critical) ⊎ (first + cfg.critical_after ≤ t))

decision-Continues :
    (cfg : Settings) (ws : WorkSession ℕ) (t id : ℕ) (s : ConditionState) (a : SafetyAlert ℕ)
    (first : ℕ)
    → s.active_alert ≡ some a
    → s.first_observed_at ≡ some first
    → (b : SafetyAlert ℕ) × ((after (decide cfg ws t id s) s).active_alert ≡ some b)
      × Continues cfg t first a b
unfolding decide must_escalate
decision-Continues cfg ws t id s a first h seen =
    elim (Bool-cases (leb (first + cfg.critical_after) t)) [
      | inl long ↦ (
        record a { violation = record a.violation { severity = critical } },
        ground arith,
        record {
          same_id = refl;
          same_raised_at = refl;
          same_first = refl;
          severity = ground arith;
        },
      )
      | inr short ↦ (
        a,
        ground arith,
        record {
          same_id = refl;
          same_raised_at = refl;
          same_first = refl;
          severity = ground arith;
        },
      )
    ]

-- accepted calls in a row that do not observe the condition `j`
pub data Unobserved (py : Str) (cfg : Settings) (ws : WorkSession ℕ) (j : Text) (e : AlertEngine)
    : ℕ → AlertEngine → Type 0 where
  here : Unobserved py cfg ws j e 0 e
  call :
      {n : ℕ} {e' e'' : AlertEngine}
      → Unobserved py cfg ws j e n e'
      → (violations : List SafetyViolation) (t : ℕ) → CanObserve py ws violations t e'
      → lookup j (map keyed violations) ≡ none
      → e'' ≡ next py cfg ws violations t e'
      → Unobserved py cfg ws j e (suc n) e''

absent_counts :
    (cfg : Settings) (t n : ℕ) (s : ConditionState) (a : SafetyAlert ℕ)
    → s.active_alert ≡ some a
    → s.consecutive_clear_observations ≡ n
    → suc n < cfg.resolution_consecutive_observations
    → ((absent cfg t s).active_alert ≡ some a)
      × ((absent cfg t s).consecutive_clear_observations ≡ suc n)
unfolding absent
absent_counts cfg t n s a o c h = ground arith

absent_resolves :
    (cfg : Settings) (t n : ℕ) (s : ConditionState) (a : SafetyAlert ℕ)
    → s.active_alert ≡ some a
    → s.consecutive_clear_observations ≡ n
    → suc n ≡ cfg.resolution_consecutive_observations
    → ((absent cfg t s).active_alert ≡ none)
      × ((absent cfg t s).next_raise_allowed_at ≡ some (t + cfg.cooldown))
unfolding absent
absent_resolves cfg t n s a o c h = ground arith

module _ (py : Str) (cfg : Settings) (ws : WorkSession ℕ) (j : Text) where
  -- After any accepted calls of a new or reset engine, a further accepted call that observes a
  -- condition with an open alert keeps that alert, with its identifier and instants, and makes it
  -- critical exactly if it was or if the calls in a row that observed the condition, this one
  -- included, go back the configured time.
  pub observe-Continues :
      (violations : List SafetyViolation) (t : ℕ) {past : List Call} {e : AlertEngine}
      (a : SafetyAlert ℕ)
      → Run py cfg j past e
      → CanObserve py ws violations t e
      → contains j (map keyed violations) ≡ true
      → alert_of (lookup j e.states) ≡ some a
      → (b : SafetyAlert ℕ) × (alert_of (lookup j (next py cfg ws violations t e).states) ≡ some b)
        × Continues cfg t (since t (streak past)) a b
  observe-Continues violations t {past} {e} a r c seen is_open =
      elim (Option-cases (lookup j (map keyed violations))) [
        | inl unseen ↦ absurd (ground arith)
        | inr (v, found) ↦
            let (n, step) =
              observe-observed py cfg ws violations t e j v c (Run-IsValid py cfg j r) found in
            let known = lookup j e.states in
            let h = Run-Agrees py cfg j r in
            let (_, first, _, open_alert) =
              note_counts cfg t past v (streak past) known h.count h.first in
            let (b, b_open, goes_on) =
              decision-Continues cfg ws t (cfg.alert_id_factory n) (note v t known) a
                (since t (streak past)) (open_alert ∙ is_open) first in
            (b, ap alert_of step ∙ b_open, goes_on)
      ]

  next-IsValid :
      (violations : List SafetyViolation) (t : ℕ) (e : AlertEngine)
      → CanObserve py ws violations t e
      → IsValid py e
      → IsValid py (next py cfg ws violations t e) × (clock (next py cfg ws violations t e) ≡ t)
  next-IsValid violations t e c k =
      let (u, e', ran, valid, now, _) = observe_total py cfg ws violations t e c k in
      rw (next, ran) (valid, now)

  Unobserved-IsValid :
      {e : AlertEngine} {n : ℕ} {e' : AlertEngine}
      → Unobserved py cfg ws j e n e'
      → IsValid py e
      → IsValid py e'
  Unobserved-IsValid here k = k
  Unobserved-IsValid (call {e'} r violations t c gone eq) k =
      subst (IsValid py) (sym eq) (next-IsValid violations t e' c (Unobserved-IsValid r k)).0

  step_absent :
      (violations : List SafetyViolation) (t : ℕ) (e : AlertEngine) (s : ConditionState)
      → CanObserve py ws violations t e
      → IsValid py e
      → lookup j (map keyed violations) ≡ none
      → lookup j e.states ≡ some s
      → lookup j (next py cfg ws violations t e).states ≡ some (absent cfg t s)
  step_absent violations t e s c k gone known =
      observe-absent py cfg ws violations t e j c k gone ∙ ap (Option.map (absent cfg t)) known

  -- In a valid engine, fewer accepted calls in a row that do not observe a condition than are
  -- configured for the resolution leave its open alert as it is, and count the calls, if none had
  -- gone before.
  pub Unobserved-stays_open :
      {e : AlertEngine} (s : ConditionState) (a : SafetyAlert ℕ)
      → IsValid py e
      → lookup j e.states ≡ some s
      → s.active_alert ≡ some a
      → s.consecutive_clear_observations ≡ 0
      → {n : ℕ} {e' : AlertEngine} → Unobserved py cfg ws j e n e'
      → n < cfg.resolution_consecutive_observations
      → (s' : ConditionState) × (lookup j e'.states ≡ some s')
        × (s'.active_alert ≡ some a)
        × (s'.consecutive_clear_observations ≡ n)
  Unobserved-stays_open s a k known is_open clear here lt = (s, known, is_open, clear)
  Unobserved-stays_open s a k known is_open clear (call {n} {e'} r violations t c gone eq) lt =
      let (s', known', open', clear') =
        Unobserved-stays_open s a k known is_open clear r (omega arith) in
      let (o, n') = absent_counts cfg t n s' a open' clear' lt in
      (
        absent cfg t s',
        rw eq (step_absent violations t e' s' c (Unobserved-IsValid r k) gone known'),
        o,
        n',
      )

  -- In a valid engine, as many accepted calls in a row that do not observe a condition as are
  -- configured for the resolution close its open alert and begin the cooldown at the last of them,
  -- if none had gone before.
  pub Unobserved-resolves :
      {e : AlertEngine} (s : ConditionState) (a : SafetyAlert ℕ)
      → IsValid py e
      → lookup j e.states ≡ some s
      → s.active_alert ≡ some a
      → s.consecutive_clear_observations ≡ 0
      → {n : ℕ} {e' : AlertEngine} → Unobserved py cfg ws j e (suc n) e'
      → suc n ≡ cfg.resolution_consecutive_observations
      → (s' : ConditionState) × (lookup j e'.states ≡ some s')
        × (s'.active_alert ≡ none)
        × (s'.next_raise_allowed_at ≡ some (clock e' + cfg.cooldown))
  Unobserved-resolves s a k known is_open clear (call {n} {e'} r violations t c gone eq) last =
      let (s', known', open', clear') =
        Unobserved-stays_open s a k known is_open clear r (omega arith) in
      let valid = Unobserved-IsValid r k in
      let (closed, cool) = absent_resolves cfg t n s' a open' clear' last in
      (
        absent cfg t s',
        rw eq (step_absent violations t e' s' c valid gone known'),
        closed,
        rw (eq, (next-IsValid violations t e' c valid).1) cool,
      )
