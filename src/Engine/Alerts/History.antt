-- ===== src/Engine/Alerts/History.antt =====
-- What has been seen of one condition of `AlertEngine`, call after call, apart from the counters and
-- the instants that the engine keeps: 2identify_operador/app/engine/alert.py.
use identify.Base.{
  ℕ, ◌+◌, ◌≡◌, refl, sym, ◌∙◌, ap, Bool, true, false, not, ◌&&◌, inl, inr, Option, none, some, List,
  [], ◌∷◌, map, length, is_some, arith, Bool-cases, Option-cases, Str, Text, aware,
}
use mathlib.Core.Option
use identify.Base.Dict.{lookup, contains}
use identify.Base.Result.{ok}
use identify.Domain.Alert.{SafetyViolation, SafetyAlert}
use identify.Domain.WorkSession.{WorkSession}
use identify.Engine.Alerts.Defs.{Settings, ConditionState, AlertEngine, engine_init, reset, note}
use identify.Engine.Alerts.Cycle.{observe}
use identify.Engine.Alerts.Spec.{decide, absent}
use identify.Engine.Alerts.Loops.{observed}
use identify.Engine.Alerts.Normalize.{keyed}
use identify.Engine.Alerts.Theorems.{
  CanObserve, IsValid, observe_total, observe-absent, observe-observed,
}

-- the alert that is open for a condition
abbrev pub alert_of : Option ConditionState → Option (SafetyAlert ℕ)
alert_of none = none
alert_of (some s) = s.active_alert

-- the engine after a call
abbrev pub next :
    Str → Settings → WorkSession ℕ → List SafetyViolation → ℕ → AlertEngine → AlertEngine
next py cfg ws violations t e = (observe py cfg ws violations (aware t) e).1

-- One call: its instant, whether its violations hold the condition, and whether an alert for the
-- condition is open after it.
pub record Call : Type 0 where
  pub at : ℕ
  pub observes : Bool
  pub leaves_open : Bool

-- The instants of the calls in a row, up to the last one, that observe the condition, the last first.
abbrev pub streak : List Call → List ℕ
streak [] = []
streak (c ∷ past) = elim c.observes [ true ↦ c.at ∷ streak past | false ↦ [] ]

-- the first of the instants, which stand last to first
abbrev pub since : ℕ → List ℕ → ℕ
since t [] = t
since t (u ∷ ts) = since u ts

abbrev pub is_open : List Call → Bool
is_open [] = false
is_open (c ∷ past) = c.leaves_open

-- the instant of the last call that closed an alert of the condition
abbrev pub closed_at : List Call → Option ℕ
closed_at [] = none
closed_at (c ∷ past) = elim (is_open past && not c.leaves_open) [
  | true ↦ some c.at
  | false ↦ closed_at past
]

abbrev pub call_of : Text → List SafetyViolation → ℕ → AlertEngine → Call
call_of j violations t e = record {
  at = t;
  observes = contains j (map keyed violations);
  leaves_open = is_some (alert_of (lookup j e.states));
}

-- The accepted calls, the last first, that a new or a reset engine has taken, of any sessions.
pub data Run (py : Str) (cfg : Settings) (j : Text) : List Call → AlertEngine → Type 0 where
  fresh : {e : AlertEngine} → engine_init cfg ≡ ok e → Run py cfg j [] e
  restart :
      {past : List Call} {e e' : AlertEngine}
      → Run py cfg j past e
      → e' ≡ reset e
      → Run py cfg j [] e'
  call :
      {past past' : List Call} {e e' : AlertEngine}
      → Run py cfg j past e
      → (ws : WorkSession ℕ) (violations : List SafetyViolation) (t : ℕ)
      → CanObserve py ws violations t e
      → e' ≡ next py cfg ws violations t e
      → past' ≡ call_of j violations t e' ∷ past
      → Run py cfg j past' e'

abbrev pub first_of : List ℕ → Option ℕ
first_of [] = none
first_of (t ∷ ts) = some (since t ts)

-- the state of a condition that the engine knows, or that of one it has not seen
abbrev pub count_of : Option ConditionState → ℕ
count_of none = 0
count_of (some s) = s.consecutive_observations

abbrev pub since_of : Option ConditionState → Option ℕ
since_of none = none
since_of (some s) = s.first_observed_at

abbrev pub cooldown_of : Option ConditionState → Option ℕ
cooldown_of none = none
cooldown_of (some s) = s.next_raise_allowed_at

-- What the engine keeps of a condition is what its calls were.
pub record Agrees (cfg : Settings) (past : List Call) (known : Option ConditionState) : Type 0 where
  pub count : count_of known ≡ length (streak past)
  pub first : since_of known ≡ first_of (streak past)
  pub cooldown : cooldown_of known ≡ Option.map (λ t. t + cfg.cooldown) (closed_at past)
  pub open_alert : is_some (alert_of known) ≡ is_open past

module _ (cfg : Settings) (t : ℕ) (past : List Call) where
  absent-Agrees :
      (known : Option ConditionState)
      → Agrees cfg past known
      → let after = Option.map (absent cfg t) known in
        Agrees cfg
          (record { at = t; observes = false; leaves_open = is_some (alert_of after) } ∷ past)
          after
  unfolding absent
  absent-Agrees none h = ground (arith, h.open_alert, h.cooldown)
  absent-Agrees (some s) h = elim (Option-cases s.active_alert) [
    | inl idle ↦ ground (arith, h.open_alert, h.cooldown)
    | inr (a, opened) ↦ ground (arith, h.open_alert, h.cooldown)
  ]

  closed_at_kept :
      (c : Call) (earlier : List Call)
      → (is_open earlier && not c.leaves_open) ≡ false
      → closed_at (c ∷ earlier) ≡ closed_at earlier
  closed_at_kept c earlier h = ground arith

  -- An observed condition gets the counter and the instant of its note, and keeps the end of its
  -- cooldown and the openness of its alert.
  observed_frame :
      (ws : WorkSession ℕ) (id : ℕ) (v : SafetyViolation) (known : Option ConditionState)
      → let s = observed cfg ws t id v known in
        (s.consecutive_observations ≡ (note v t known).consecutive_observations)
        × (s.first_observed_at ≡ (note v t known).first_observed_at)
        × (s.next_raise_allowed_at ≡ (note v t known).next_raise_allowed_at)
  unfolding decide
  observed_frame ws id v known = ground arith

  pub note_counts :
      (v : SafetyViolation) (ts : List ℕ) (known : Option ConditionState)
      → count_of known ≡ length ts
      → since_of known ≡ first_of ts
      → ((note v t known).consecutive_observations ≡ length (t ∷ ts))
        × ((note v t known).first_observed_at ≡ some (since t ts))
        × ((note v t known).next_raise_allowed_at ≡ cooldown_of known)
        × ((note v t known).active_alert ≡ alert_of known)
  unfolding note
  note_counts v [] none h k = (refl, refl, refl, refl)
  note_counts v [] (some s) h k = ground arith
  note_counts v (u ∷ ts) none h k = absurd (ground arith)
  note_counts v (u ∷ ts) (some s) h k = ground arith

  observed-open :
      (ws : WorkSession ℕ) (id : ℕ) (v : SafetyViolation) (known : Option ConditionState)
      → is_some (alert_of known) ≡ true
      → is_some (observed cfg ws t id v known).active_alert ≡ true
  unfolding note decide
  observed-open ws id v none h = ground arith
  observed-open ws id v (some s) h = ground arith

  observed-Agrees :
      (ws : WorkSession ℕ) (id : ℕ) (v : SafetyViolation) (known : Option ConditionState)
      → Agrees cfg past known
      → let after = some (observed cfg ws t id v known) in
        Agrees cfg
          (record { at = t; observes = true; leaves_open = is_some (alert_of after) } ∷ past)
          after
  observed-Agrees ws id v known h =
      let (count, first, cooldown) = observed_frame ws id v known in
      let (counted, began, cooling, _) = note_counts v (streak past) known h.count h.first in
      let after = some (observed cfg ws t id v known) in
      let c : Call = record { at = t; observes = true; leaves_open = is_some (alert_of after) } in
      let kept : closed_at (c ∷ past) ≡ closed_at past =
        closed_at_kept c past (elim (Bool-cases (is_open past)) [
          | inl opened ↦
              let still = observed-open ws id v known (h.open_alert ∙ opened) in ground arith
          | inr closed ↦ ground arith
        ]) in
      record {
        count = count ∙ counted;
        first = first ∙ began;
        cooldown =
            cooldown ∙ cooling ∙ h.cooldown ∙ sym (ap (Option.map (λ t. t + cfg.cooldown)) kept);
        open_alert = refl;
      }

module _ (py : Str) (cfg : Settings) (j : Text) where
  fresh-IsValid : (e : AlertEngine) → engine_init cfg ≡ ok e → IsValid py e × (e.states ≡ [])
  unfolding engine_init
  fresh-IsValid e h =
      let made : e
          ≡ record { states = []; work_session_id = none; last_observed_at = none; issued = 0 } =
        ground arith in
      rw made (record { distinct = tt; tracked = tt }, refl)

  pub Run-IsValid : {past : List Call} {e : AlertEngine} → Run py cfg j past e → IsValid py e
  unfolding reset
  Run-IsValid (fresh {e} made) = (fresh-IsValid e made).0
  Run-IsValid (restart r eq) = rw eq (record { distinct = tt; tracked = tt })
  Run-IsValid (call {e} r ws violations t c eq more) =
      let (u, e', ran, valid, _, _) = observe_total py cfg ws violations t e c (Run-IsValid r) in
      rw (eq, next, ran) valid

  none-Agrees : {known : Option ConditionState} → known ≡ none → Agrees cfg [] known
  none-Agrees h = rw h (record { count = refl; first = refl; cooldown = refl; open_alert = refl })

  -- The counters and instants of the engine are those of its calls.
  pub Run-Agrees :
      {past : List Call} {e : AlertEngine}
      → Run py cfg j past e
      → Agrees cfg past (lookup j e.states)
  unfolding reset
  Run-Agrees (fresh {e} made) = none-Agrees (ap (lookup j) (fresh-IsValid e made).1)
  Run-Agrees (restart r eq) = none-Agrees (rw eq refl)
  Run-Agrees (call {past} {e} {e'} r ws violations t c eq more) =
      let before = Run-Agrees r in
      let valid = Run-IsValid r in
      elim (Option-cases (lookup j (map keyed violations))) [
        | inl unseen ↦
            let step : lookup j e'.states ≡ Option.map (absent cfg t) (lookup j e.states) =
              rw eq (observe-absent py cfg ws violations t e j c valid unseen) in
            rw (more, unseen, step) (absent-Agrees cfg t past (lookup j e.states) before)
        | inr (v, seen) ↦
            let (n, stepped) = observe-observed py cfg ws violations t e j v c valid seen in
            let step : lookup j e'.states
                ≡ some (observed cfg ws t (cfg.alert_id_factory n) v (lookup j e.states)) =
              rw eq stepped in
            rw (more, seen, step)
              (observed-Agrees cfg t past ws (cfg.alert_id_factory n) v (lookup j e.states) before)
      ]
