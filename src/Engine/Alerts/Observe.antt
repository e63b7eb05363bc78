-- ===== src/Engine/Alerts/Observe.antt =====
-- One cycle of `AlertEngine.observe`, complete: it returns, keeps the invariant, and moves each
-- condition by one step of the automaton.
use identify.Base.{
  ℕ, ◌≡◌, ◌⊎◌, inl, inr, Bool, true, false, not, List, [], ◌∷◌, ◌++◌, arith, All, any-false,
  All-append, Option-cases, if◌then◌else◌, Str,
}
use identify.Base.Dict.{Dict, contains}
use identify.Base.Result.{ok}
use identify.Base.Sort.{All-sorted}
use identify.Domain.Alert.{SafetyViolation, SafetyAlert}
use identify.Domain.WorkSession.{WorkSession}
use identify.Engine.Alerts.Defs.{
  Settings, ConditionState, AlertEngine, AlertEngineUpdate, Changes, has_active, update_init,
}
use identify.Engine.Alerts.Cycle.{open_alerts, alert_lt, active_alerts, process}
use identify.Engine.Alerts.Spec.{
  Decision, quiet, raise, escalate, report, resolution, IsOpen, OpenIfAny, IsTracked, AreTracked,
  IsSession,
}
use identify.Engine.Alerts.Tracked.{note-IsTracked, decide-IsOpen}
use identify.Engine.Alerts.Loops.{
  AllBuilt, current_after, decision, engine_after, engine_after-AreTracked, observe_current_lem,
  current_after-AreTracked, sweep, resolutions, clear_absent_lem, sweep-AreTracked,
}
use mathlib.Core.Path.{subst}

-- The alerts of a list are all active.
abbrev AllActive : List (SafetyAlert ℕ) → Type 0
AllActive alerts = All (λ a. has_active a ≡ true) alerts

abbrev AllResolved : List (SafetyAlert ℕ) → Type 0
AllResolved alerts = All (λ a. has_active a ≡ false) alerts

IsOpen→active : (py : Str) (t : ℕ) (a : SafetyAlert ℕ) → IsOpen py t a → has_active a ≡ true
IsOpen→active py t a o = ground arith

open_alerts-AllActive :
    (py : Str) (t : ℕ) (states : Dict ConditionState)
    → All (λ entry. IsTracked py t entry.1) states
    → AllActive (open_alerts states)
unfolding open_alerts
open_alerts-AllActive py t [] k = tt
open_alerts-AllActive py t ((key, s) ∷ rest) k = elim (Option-cases s.active_alert) [
  | inl idle ↦ rw idle (open_alerts-AllActive py t rest k.1)
  | inr (a, is_open) ↦ rw is_open (
    IsOpen→active py t a (subst (OpenIfAny py t) is_open k.0.open_alert),
    open_alerts-AllActive py t rest k.1,
  )
]

resolutions-AllResolved :
    (cfg : Settings) (t : ℕ) (current : Dict SafetyViolation) (states : Dict ConditionState)
    → AllResolved (resolutions cfg t current states)
unfolding resolutions resolution
resolutions-AllResolved cfg t current [] = tt
resolutions-AllResolved cfg t current ((key, s) ∷ rest) =
    All-append (λ a. has_active a ≡ false) _ (resolutions cfg t current rest)
      (visited (contains key current)) (resolutions-AllResolved cfg t current rest)
  where
    of_state : AllResolved (resolution cfg t s)
    of_state = ground arith

    visited : (b : Bool) → AllResolved (if b then [] else resolution cfg t s)
    visited true = tt
    visited false = of_state

update_init_lem :
    (u : AlertEngineUpdate)
    → AllActive u.raised_alerts
    → AllActive u.active_alerts
    → AllActive u.escalated_alerts
    → AllResolved u.resolved_alerts
    → update_init u ≡ ok u
unfolding update_init
update_init_lem u r a x d =
    let p : SafetyAlert ℕ → Bool = λ y. not (has_active y) in
    rw (
      any-false (λ y. has_active y ≡ true) p
          (u.raised_alerts ++ (u.active_alerts ++ u.escalated_alerts)) (λ y h. rw h)
          (All-append (λ y. has_active y ≡ true) u.raised_alerts _ r
            (All-append (λ y. has_active y ≡ true) u.active_alerts _ a x)),
      any-false (λ y. has_active y ≡ false) has_active u.resolved_alerts (λ y h. h) d,
    )

current_after-AllActive :
    (py : Str) (cfg : Settings) (ws : WorkSession ℕ) (t : ℕ) (current : Dict SafetyViolation)
    (changes : Changes) (e : AlertEngine)
    → IsSession ws
    → AllBuilt cfg ws t py current
    → AreTracked py t e.states
    → AllActive changes.0 × AllActive changes.1
    → let (changes', _) = current_after cfg ws t current changes e in
      AllActive changes'.0 × AllActive changes'.1
unfolding current_after
current_after-AllActive py cfg ws t [] changes e w b k h = h
current_after-AllActive py cfg ws t ((key, v) ∷ rest) changes e w b k h =
    current_after-AllActive py cfg ws t rest (report d changes) (engine_after cfg ws t e key v) w
      b.1 (engine_after-AreTracked cfg ws t py key v e w b.0 k)
      (reported d (decide-IsOpen py cfg ws t _ _ w (note-IsTracked py v t key e.states b.0 k)))
  where
    d : Decision
    d = decision cfg ws t e key v

    one : (a : SafetyAlert ℕ) → IsOpen py t a → AllActive (a ∷ [])
    one a o = (IsOpen→active py t a o, tt)

    reported :
        (d : Decision)
        → (d ≡ quiet) ⊎ ((a : SafetyAlert ℕ) × ((d ≡ raise a) ⊎ (d ≡ escalate a)) × IsOpen py t a)
        → AllActive (report d changes).0 × AllActive (report d changes).1
    reported d (inl same) = rw same h
    reported d (inr (a, inl raised, o)) =
        rw raised (All-append _ changes.0 (a ∷ []) h.0 (one a o), h.1)
    reported d (inr (a, inr raised, o)) =
        rw raised (h.0, All-append _ changes.1 (a ∷ []) h.1 (one a o))

module _ (cfg : Settings) (ws : WorkSession ℕ) (t : ℕ) (current : Dict SafetyViolation)
    (e : AlertEngine) where
  -- the engine after the first loop, and after the cycle
  abbrev pub first_pass : Changes × AlertEngine
  first_pass = current_after cfg ws t current ([], []) e

  abbrev pub cycled : AlertEngine
  cycled = record (first_pass.1) { states = sweep cfg t current first_pass.1.states }

  abbrev pub cycle_update : AlertEngineUpdate
  cycle_update = record {
    raised_alerts = first_pass.0.0;
    resolved_alerts = resolutions cfg t current first_pass.1.states;
    active_alerts = active_alerts cfg cycled;
    escalated_alerts = first_pass.0.1;
  }

  -- The loops and the update raise nothing.
  pub process_lem :
      (py : Str)
      → IsSession ws
      → AllBuilt cfg ws t py current
      → AreTracked py t e.states
      → process py cfg ws t current e ≡ (ok cycle_update, cycled)
  unfolding process active_alerts
  process_lem py w b k =
      let k1 = current_after-AreTracked cfg ws t py current ([], []) e w b k in
      let k2 = sweep-AreTracked py cfg t current first_pass.1.states k1 in
      let (r, x) = current_after-AllActive py cfg ws t current ([], []) e w b k (tt, tt) in
      ground (
        arith,
        observe_current_lem cfg ws t py current ([], []) e w b k,
        clear_absent_lem py cfg t current first_pass.1 [] first_pass.1.states [] k1,
        update_init_lem cycle_update r
            (All-sorted (alert_lt cfg) (λ a. has_active a ≡ true) (open_alerts cycled.states)
              (open_alerts-AllActive py t cycled.states k2.tracked))
            x (resolutions-AllResolved cfg t current first_pass.1.states),
      )
