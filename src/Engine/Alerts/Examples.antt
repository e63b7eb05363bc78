-- ===== src/Engine/Alerts/Examples.antt =====
-- Runs of the alert engine of 2identify_operador/app/engine/alert.py on a missing helmet.
use identify.Base.{
  ℕ, ◌+◌, ◌≤◌, sym, ◌≡◌, refl, true, false, none, some, List, [], ◌∷◌, map, arith, plain_str,
  normalize, text_eq, aware,
}
use identify.Base.Dict.{lookup, contains}
use identify.Base.Result.{ok, err, value_error}
use identify.Domain.Alert.{
  SafetyAlert, deduplication_key, value, violation_init, alert_init, alert_end, resolve,
}
use identify.Engine.Alerts.Defs.{
  ConditionState, AlertEngine, AlertEngineUpdate, engine_init, observe_current, observe_violation,
  raise_or_escalate, raise_alert, note, can_raise, temporal_severity, escalate_active,
  must_escalate, clear_absent, clear_condition, update_init,
}
use identify.Engine.Alerts.Cycle.{
  observe, bind_session, normalize_violations, collect_violations, process, active_alerts,
  open_alerts,
}
use identify.Base.Sort.{sorted, insert_sorted}
use mathlib.Core.Path.{subst}
use identify.Engine.Alerts.Spec.{SeenBefore}
use identify.Engine.Alerts.Normalize.{keyed}
use identify.Engine.Alerts.Theorems.{CanObserve, IsValid, clock, observe_total, begun, BoundTo}
use identify.Engine.Alerts.History.{alert_of, next, Call, streak, since, call_of, Run}
use identify.Engine.Alerts.History
use identify.Engine.Alerts.Debounce.{IsDebounced, observe_debounces, observe_raises}
use identify.Engine.Alerts.Lifecycle.{
  Continues, Unobserved, observe-Continues, Unobserved-stays_open, Unobserved-resolves,
}
use identify.Engine.Alerts.Lifecycle
use identify.Engine.Alerts.Samples.{
  alert, can_see, helmet, helmet_twice, key, known_raised, raised-IsValid, raised_engine,
  raised_open, session, session-IsSession, settings, waiting-IsValid, waiting_engine, waiting_idle,
  raised, helmet-IsViolation,
}
use identify.Engine.Alerts.Refusals.{
  IsRefused, observe_refuses, observe_duplicates, active_alerts_lem,
}
use identify.Engine.Alerts.Refusals

second_observation :
    alert_of (lookup key (next plain_str settings session (helmet ∷ []) 110 waiting_engine).states)
    ≡ some alert
unfolding observe bind_session normalize_violations collect_violations process observe_current
    observe_violation raise_or_escalate raise_alert note can_raise temporal_severity escalate_active
    must_escalate clear_absent clear_condition active_alerts open_alerts update_init alert_init
    alert_end violation_init normalize text_eq deduplication_key value sorted insert_sorted
second_observation = refl

abbrev new_engine : AlertEngine
new_engine = record { states = []; work_session_id = none; last_observed_at = none; issued = 0 }

can_see_first : CanObserve plain_str session (helmet ∷ []) 100 new_engine
can_see_first = record {
  session = session-IsSession;
  is_active = refl;
  started = omega arith;
  forward = tt;
  bound = tt;
  built = (helmet-IsViolation, tt);
  distinct = (refl, tt);
}

first_call : waiting_engine ≡ next plain_str settings session (helmet ∷ []) 100 new_engine
unfolding observe bind_session normalize_violations collect_violations process observe_current
    observe_violation raise_or_escalate raise_alert note can_raise temporal_severity escalate_active
    must_escalate clear_absent clear_condition active_alerts open_alerts update_init alert_init
    alert_end violation_init normalize text_eq deduplication_key value sorted insert_sorted
first_call = refl

second_call : raised_engine ≡ next plain_str settings session (helmet ∷ []) 110 waiting_engine
unfolding observe bind_session normalize_violations collect_violations process observe_current
    observe_violation raise_or_escalate raise_alert note can_raise temporal_severity escalate_active
    must_escalate clear_absent clear_condition active_alerts open_alerts update_init alert_init
    alert_end violation_init normalize text_eq deduplication_key value sorted insert_sorted
second_call = refl

-- the calls of the engine: at 100 it waits, at 110 it has raised
abbrev one_call : List Call
one_call = record { at = 100; observes = true; leaves_open = false } ∷ []

abbrev two_calls : List Call
two_calls = record { at = 110; observes = true; leaves_open = true } ∷ one_call

first_made : one_call ≡ call_of key (helmet ∷ []) 100 waiting_engine ∷ []
unfolding text_eq deduplication_key value
first_made = refl

second_made : two_calls ≡ call_of key (helmet ∷ []) 110 raised_engine ∷ one_call
unfolding text_eq deduplication_key value
second_made = refl

new_run : Run plain_str settings key [] new_engine
unfolding engine_init
new_run = History.fresh refl

one_run : Run plain_str settings key one_call waiting_engine
one_run = History.call new_run session (helmet ∷ []) 100 can_see_first first_call first_made

two_run : Run plain_str settings key two_calls raised_engine
two_run = History.call one_run session (helmet ∷ []) 110 can_see second_call second_made

observes_helmet : contains key (map keyed (helmet ∷ [])) ≡ true
unfolding text_eq deduplication_key value
observes_helmet = refl

observe_debounces_example :
    (contains key (map keyed (helmet ∷ [])) ≡ true)
    × IsDebounced settings 110 one_call
    × (alert.raised_at ≡ 110)
    × (alert.first_observed_at ≡ since 110 (streak one_call))
observe_debounces_example =
    observe_debounces plain_str settings session (helmet ∷ []) 110 key {a = alert} one_run can_see
      waiting_idle second_observation

observe_raises_example :
    (a : SafetyAlert ℕ) × (alert_of
        (lookup key (next plain_str settings session (helmet ∷ []) 110 waiting_engine).states)
      ≡ some a)
    × (a.raised_at ≡ 110)
    × (a.first_observed_at ≡ since 110 (streak one_call))
observe_raises_example =
    observe_raises plain_str settings session (helmet ∷ []) 110 key one_run can_see observes_helmet
      waiting_idle (record { observations = omega arith; persistence = omega arith; cooldown = tt })

observe_total_example :
    (u : AlertEngineUpdate) × (e : AlertEngine) × (observe plain_str settings session
        (helmet ∷ [])
        (aware 110)
        waiting_engine
      ≡ (ok u, e))
    × IsValid plain_str e
    × (clock e ≡ 110)
    × (e.work_session_id ≡ some 1)
observe_total_example =
    observe_total plain_str settings session (helmet ∷ []) 110 waiting_engine can_see
      waiting-IsValid

can_see_again : CanObserve plain_str session (helmet ∷ []) 200 raised_engine
can_see_again = record {
  session = session-IsSession;
  is_active = refl;
  started = omega arith;
  forward = omega arith;
  bound = refl;
  built = (helmet-IsViolation, tt);
  distinct = (refl, tt);
}

observe-Continues_example :
    (b : SafetyAlert ℕ) × (alert_of
        (lookup key (next plain_str settings session (helmet ∷ []) 200 raised_engine).states)
      ≡ some b)
    × Continues settings 200 (since 200 (streak two_calls)) alert b
observe-Continues_example =
    observe-Continues plain_str settings session key (helmet ∷ []) 200 alert two_run can_see_again
      observes_helmet raised_open

-- calls without violations, from the raised engine on
can_clear :
    (t : ℕ) (e : AlertEngine)
    → SeenBefore t e.last_observed_at
    → 60 ≤ t
    → BoundTo 1 e.work_session_id
    → CanObserve plain_str session [] t e
can_clear t e forward started bound = record {
  session = session-IsSession;
  is_active = refl;
  started = started;
  forward = forward;
  bound = bound;
  built = tt;
  distinct = tt;
}

abbrev clear_once : AlertEngine
clear_once = next plain_str settings session [] 120 raised_engine

one_clear : Unobserved plain_str settings session key raised_engine 1 clear_once
one_clear =
    Lifecycle.call Lifecycle.here [] 120
      (can_clear 120 raised_engine (omega arith) (omega arith) refl) refl refl

abbrev clear_twice : AlertEngine
clear_twice = next plain_str settings session [] 130 clear_once

clear_once_clock : clear_once.last_observed_at ≡ some 120
unfolding observe bind_session normalize_violations collect_violations process clear_absent
    clear_condition active_alerts open_alerts update_init alert_init alert_end resolve sorted
    insert_sorted text_eq observe_current
clear_once_clock = refl

clear_once_session : clear_once.work_session_id ≡ some 1
unfolding observe bind_session normalize_violations collect_violations process clear_absent
    clear_condition active_alerts open_alerts update_init alert_init alert_end resolve sorted
    insert_sorted text_eq observe_current
clear_once_session = refl

two_clear : Unobserved plain_str settings session key raised_engine 2 clear_twice
two_clear =
    Lifecycle.call one_clear [] 130
      (can_clear 130 clear_once (subst (SeenBefore 130) (sym clear_once_clock) (omega arith))
        (omega arith) (subst (BoundTo 1) (sym clear_once_session) refl))
      refl refl

Unobserved-stays_open_example :
    (s : ConditionState) × (lookup key clear_once.states ≡ some s)
    × (s.active_alert ≡ some alert)
    × (s.consecutive_clear_observations ≡ 1)
Unobserved-stays_open_example =
    Unobserved-stays_open plain_str settings session key raised alert raised-IsValid known_raised
      refl refl one_clear (omega arith)

Unobserved-resolves_example :
    (s : ConditionState) × (lookup key clear_twice.states ≡ some s)
    × (s.active_alert ≡ none)
    × (s.next_raise_allowed_at ≡ some (clock clear_twice + 30))
Unobserved-resolves_example =
    Unobserved-resolves plain_str settings session key raised alert raised-IsValid known_raised refl
      refl two_clear refl

observe_refuses_example :
    observe plain_str settings session (helmet ∷ []) (aware 90) waiting_engine
    ≡ (err value_error, waiting_engine)
observe_refuses_example =
    observe_refuses plain_str settings session (helmet ∷ []) waiting_engine
      (Refusals.backwards 90 100 refl (omega arith))

observe_duplicates_example :
    observe plain_str settings session (helmet ∷ helmet ∷ []) (aware 110) waiting_engine
    ≡ (err value_error, begun session 110 waiting_engine)
observe_duplicates_example =
    observe_duplicates plain_str settings session (helmet ∷ helmet ∷ []) 110 waiting_engine refl
      (omega arith) (omega arith) refl helmet_twice
