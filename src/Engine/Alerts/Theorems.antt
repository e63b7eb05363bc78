-- ===== src/Engine/Alerts/Theorems.antt =====
-- Whole calls of `observe` of 2identify_operador/app/engine/alert.py.
use identify.Base.{
  ℕ, ◌≤◌, ◌≡◌, sym, true, Option, none, some, List, [], map, arith, All, Str, Text, aware,
}
use mathlib.Core.Path.{subst}
use mathlib.Core.Option
use identify.Base.Dict.{Distinct, lookup}
use identify.Base.Result.{ok}
use identify.Domain.Alert.{Uuid, SafetyViolation}
use identify.Domain.Alert.Laws.{IsViolation}
use identify.Domain.WorkSession.{WorkSession}
use identify.Domain.WorkSession
use identify.Engine.Alerts.Defs.{Settings, AlertEngine, AlertEngineUpdate}
use identify.Engine.Alerts.Cycle.{bind_session, observe}
use identify.Engine.Alerts.Spec.{absent, SeenBefore, AreTracked, IsSession}
use identify.Engine.Alerts.Tracked.{AreTracked-le}
use identify.Engine.Alerts.Loops.{
  observed, current_after-AreTracked, current_after_other, current_after-observed,
  current_after_frame, sweep-AreTracked, lookup-sweep,
}
use identify.Engine.Alerts.Observe.{cycled, cycle_update, process_lem}
use identify.Engine.Alerts.Normalize.{
  keyed, normalize_violations_lem, normalize_violations-Distinct,
}

-- the instant of the engine's last observation
abbrev pub clock : AlertEngine → ℕ
clock e = elim e.last_observed_at [ none ↦ 0 | some t ↦ t ]

abbrev pub BoundTo : Uuid → Option Uuid → Type 0
BoundTo session_id none = Unit
BoundTo session_id (some bound) = bound ≡ session_id

-- Every condition is tracked as of the last observation.
abbrev pub IsValid : Str → AlertEngine → Type 0
IsValid py e = AreTracked py (clock e) e.states

-- A call that meets the engine's terms: an active session, the one that the engine is bound to,
-- time that does not run backwards, violations that the constructor built, no key twice.
pub record CanObserve (py : Str) (ws : WorkSession ℕ) (violations : List SafetyViolation) (t : ℕ)
    (e : AlertEngine) : Type 0 where
  pub session : IsSession ws
  pub is_active : WorkSession.is_active ws.status ≡ true
  pub started : ws.started_at ≤ t
  pub forward : SeenBefore t e.last_observed_at
  pub bound : BoundTo ws.session_id e.work_session_id
  pub built : All (IsViolation py) violations
  pub distinct : Distinct (map keyed violations)

-- the engine as it stands when the loops begin
abbrev pub begun : WorkSession ℕ → ℕ → AlertEngine → AlertEngine
begun ws t e = record e { work_session_id = some ws.session_id; last_observed_at = some t }

begun-AreTracked :
    (py : Str) (t : ℕ) (e : AlertEngine)
    → SeenBefore t e.last_observed_at
    → IsValid py e
    → AreTracked py t e.states
begun-AreTracked py t e f v = AreTracked-le py e.states (ground arith) v

pub observe_lem :
    (py : Str) (cfg : Settings) (ws : WorkSession ℕ) (violations : List SafetyViolation) (t : ℕ)
    (e : AlertEngine)
    → CanObserve py ws violations t e
    → IsValid py e
    → observe py cfg ws violations (aware t) e ≡ (
      ok (cycle_update cfg ws t (map keyed violations) (begun ws t e)),
      cycled cfg ws t (map keyed violations) (begun ws t e),
    )
unfolding observe bind_session
observe_lem py cfg ws violations t e c v =
    let (_, built, _) =
      normalize_violations_lem py violations c.built
        (normalize_violations-Distinct violations c.distinct) in
    ground (
      arith,
      normalize_violations-Distinct violations c.distinct,
      process_lem cfg ws t (map keyed violations) (begun ws t e) py c.session built
          (begun-AreTracked py t e c.forward v),
    )

module _ (py : Str) (cfg : Settings) (ws : WorkSession ℕ) (violations : List SafetyViolation)
    (t : ℕ) (e : AlertEngine) where
  cycled-AreTracked :
      CanObserve py ws violations t e
      → IsValid py e
      → AreTracked py t (cycled cfg ws t (map keyed violations) (begun ws t e)).states
  cycled-AreTracked c v =
      let (_, built, _) =
        normalize_violations_lem py violations c.built
          (normalize_violations-Distinct violations c.distinct) in
      sweep-AreTracked py cfg t (map keyed violations) _ (
        current_after-AreTracked cfg ws t py (map keyed violations) ([], []) (begun ws t e)
          c.session built (begun-AreTracked py t e c.forward v))

  -- On a valid engine a call with an active session of the engine, an instant not before the last
  -- one, and built violations with distinct keys returns an update; the engine stays valid, is
  -- bound to the session and has the instant as its clock.
  pub observe_total :
      CanObserve py ws violations t e
      → IsValid py e
      → (u : AlertEngineUpdate) × (e' : AlertEngine) × (observe py cfg ws violations (aware t) e
          ≡ (ok u, e'))
        × IsValid py e'
        × (clock e' ≡ t)
        × (e'.work_session_id ≡ some ws.session_id)
  observe_total c v =
      let (last, bound) =
        current_after_frame cfg ws t (map keyed violations) ([], []) (begun ws t e) in
      let now : clock (cycled cfg ws t (map keyed violations) (begun ws t e)) ≡ t = ground arith in
      (
        _,
        _,
        observe_lem py cfg ws violations t e c v,
        subst (λ k. AreTracked py k (cycled cfg ws t (map keyed violations) (begun ws t e)).states)
            (sym now) (cycled-AreTracked c v),
        now,
        bound,
      )

  -- A condition that an accepted call does not observe makes the step `absent`, and no other change.
  pub observe-absent :
      (j : Text)
      → CanObserve py ws violations t e
      → IsValid py e
      → lookup j (map keyed violations) ≡ none
      → lookup j (observe py cfg ws violations (aware t) e).1.states
        ≡ Option.map (absent cfg t) (lookup j e.states)
  observe-absent j c v h = rw (
    observe_lem py cfg ws violations t e c v,
    lookup-sweep,
    h,
    current_after_other cfg ws t (map keyed violations) ([], []) (begun ws t e) j h,
  )

  -- A condition that an accepted call observes makes the step `observed`, and no other change.
  pub observe-observed :
      (j : Text) (v : SafetyViolation)
      → CanObserve py ws violations t e
      → IsValid py e
      → lookup j (map keyed violations) ≡ some v
      → (n : ℕ) × (lookup j (observe py cfg ws violations (aware t) e).1.states
          ≡ some (observed cfg ws t (cfg.alert_id_factory n) v (lookup j e.states)))
  observe-observed j v c k h =
      let (n, _, step) =
        current_after-observed cfg ws t (map keyed violations) ([], []) (begun ws t e) j v
          c.distinct h in
      (n, rw (observe_lem py cfg ws violations t e c k, lookup-sweep, h) step)
