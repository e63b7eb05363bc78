-- ===== src/Services/Sessions/Lifecycle.antt =====
-- How a work session ends, and what holds of the service after any sequence of calls.
use identify.Base.{
  ℕ, ◌≤◌, ◌<◌, ◌≡◌, refl, sym, ◌⊎◌, inl, inr, Bool, true, false, Option, none, some, List, [], ◌∷◌,
  arith, leb, ◌==◌, DateTime, naive, aware, Option-cases, Bool-cases,
}
use mathlib.Core.Path.{subst}
use identify.Base.Result.{Result, Result-cases, ok, err, value_error}
use identify.Domain.Alert.{Uuid}
use identify.Domain.Operation.{Operation}
use identify.Domain.WorkSession.{
  WorkSession, WorkSessionStatus, completed, interrupted, OperationStartAuthorization, session_init,
  check_times, session_end, session_fields, finish,
}
use identify.Domain.WorkSession
use mathlib.Core.Option
use identify.Services.Sessions.Laws.{started_session}
use identify.Services.Sessions.Defs.{
  SessionService, service_init, new_session, start, store_finished, finish_at, finish_current,
  complete, interrupt_active,
}

-- An active session as the constructor builds it.
pub record IsRunning (w : WorkSession ℕ) : Type 0 where
  pub built : session_init (session_fields w) ≡ ok w
  pub is_active : w.status ≡ WorkSession.active

-- A session that has ended, at or after its start.
pub record IsEnded (w : WorkSession ℕ) : Type 0 where
  pub built : session_init (session_fields w) ≡ ok w
  pub not_active : WorkSession.is_active w.status ≡ false

abbrev pub ended : WorkSession ℕ → ℕ → WorkSessionStatus → WorkSession ℕ
ended w t status = record w { finished_at = some t; status = status }

finish_lem :
    (w : WorkSession ℕ) (t : ℕ) (status : WorkSessionStatus)
    → IsRunning w
    → WorkSession.is_active status ≡ false
    → w.started_at ≤ t
    → finish w (aware t) status ≡ ok (ended w t status)
unfolding finish session_init check_times session_end
finish_lem w t status r c le = ground arith

finish_early :
    (w : WorkSession ℕ) (t : ℕ) (status : WorkSessionStatus)
    → IsRunning w
    → WorkSession.is_active status ≡ false
    → t < w.started_at
    → finish w (aware t) status ≡ err value_error
unfolding finish session_init check_times session_end
finish_early w t status r c lt = ground arith

-- Completing a running current session at an aware instant either returns it completed at that
-- instant, clears the current session and remembers the completed one, or, if the instant is before
-- the start, raises ValueError and changes nothing.
pub complete_lem :
    (s : SessionService) (w : WorkSession ℕ) (t : ℕ)
    → s.current ≡ some w
    → IsRunning w
    → ((w.started_at ≤ t)
        × (complete s w.session_id (aware t) ≡ (
          ok (ended w t completed),
          record s { current = none; last_finished = some (ended w t completed) },
        )))
      ⊎ ((t < w.started_at) × (complete s w.session_id (aware t) ≡ (err value_error, s)))
unfolding complete finish_current store_finished finish_at
complete_lem s w t cur r = elim (Bool-cases (leb w.started_at t)) [
  | inl later ↦ inl (ground arith, ground (arith, finish_lem w t completed r refl))
  | inr early ↦ inr (ground arith, ground (arith, finish_early w t completed r refl (ground arith)))
]

abbrev pub Running : Option (WorkSession ℕ) → Type 0
Running none = Unit
Running (some w) = IsRunning w

abbrev pub Ended : Option (WorkSession ℕ) → Type 0
Ended none = Unit
Ended (some w) = IsEnded w

-- The current session is an active one, and the last one that finished is not.
pub record IsValid (s : SessionService) : Type 0 where
  pub running : Running s.current
  pub last : Ended s.last_finished

-- a call of the service, with what the clock and the factory return in it
pub data Call : Type 0 where
  start_call : ℕ → Operation → OperationStartAuthorization ℕ → DateTime → Uuid → Call
  complete_call : Uuid → DateTime → Call
  interrupt_call : DateTime → Call

unfoldable pub step : SessionService → Call → SessionService
step s (start_call operator_id operation a now id) = (start s operator_id operation a now id).1
step s (complete_call id now) = (complete s id now).1
step s (interrupt_call now) = (interrupt_active s now).1

unfoldable pub run : SessionService → List Call → SessionService
run s [] = s
run s (c ∷ cs) = run (step s c) cs

session_end_again :
    (b : Bool) (given : Option DateTime) (started_at : ℕ) {o : Option ℕ}
    → session_end b given started_at ≡ ok o
    → session_end b (Option.map aware o) started_at ≡ ok o
unfolding session_end
session_end_again true given started_at h = ground arith
session_end_again false none started_at h = ground arith
session_end_again false (some (naive t)) started_at h = ground arith
session_end_again false (some (aware t)) started_at h = ground arith

check_times_again :
    (verified started : DateTime) (given : Option DateTime) (b : Bool) {v t : ℕ} {o : Option ℕ}
    → check_times verified started given b ≡ ok (v, t, o)
    → check_times (aware v) (aware t) (Option.map aware o) b ≡ ok (v, t, o)
unfolding check_times
check_times_again (naive a) started given b h = absurd (ground arith)
check_times_again (aware a) (naive c) given b h = absurd (ground arith)
check_times_again (aware a) (aware c) given b {o} h =
    ground (arith, session_end_again b given c {o = o})

-- What the constructor returns, it accepts again.
session_init_again :
    (raw : WorkSession DateTime) {w : WorkSession ℕ}
    → session_init raw ≡ ok w
    → (session_init (session_fields w) ≡ ok w) × (w.status ≡ raw.status)
unfolding session_init
session_init_again raw {w} h = (
  ground (
    arith,
    check_times_again raw.safety_verified_at raw.started_at raw.finished_at
        (WorkSession.is_active raw.status) {v = w.safety_verified_at} {t = w.started_at}
        {o = w.finished_at},
  ),
  ground arith,
)

new_session-IsRunning :
    (s : SessionService) (operator_id : ℕ) (operation : Operation)
    (a : OperationStartAuthorization ℕ) (now : DateTime) (id : Uuid) {w : WorkSession ℕ}
    → new_session s operator_id operation a now id ≡ ok w
    → IsRunning w
unfolding new_session
new_session-IsRunning s operator_id operation a (naive t) id {w} h = absurd (ground arith)
new_session-IsRunning s operator_id operation a (aware t) id {w} h =
    let fields : WorkSession DateTime =
      session_fields (started_session operator_id operation a t id) in
    let (again, status) = session_init_again fields {w = w} (ground arith) in
    record { built = again; is_active = status }

finish_at-IsEnded :
    (w : WorkSession ℕ) (now : DateTime) (status : WorkSessionStatus) {w' : WorkSession ℕ}
    → finish_at w now status ≡ ok w'
    → IsEnded w'
unfolding finish_at finish
finish_at-IsEnded w (naive t) status h = absurd (ground arith)
finish_at-IsEnded w (aware t) status {w'} h =
    let (again, status) =
      session_init_again
        (record (session_fields w) { finished_at = some (aware t); status = status }) {w = w'}
        (ground arith) in
    record { built = again; not_active = ground arith }

store_finished-IsValid :
    (s : SessionService) (w : WorkSession ℕ) (now : DateTime) (status : WorkSessionStatus)
    → IsValid s
    → IsValid (store_finished s (finish_at w now status)).1
unfolding store_finished
store_finished-IsValid s w now status v = go (finish_at w now status) refl
  where
    go : (r : Result (WorkSession ℕ)) → finish_at w now status ≡ r → IsValid (store_finished s r).1
    go (err x) e = v
    go (ok w') e = record { running = tt; last = finish_at-IsEnded w now status e }

start-IsValid :
    (s : SessionService) (operator_id : ℕ) (operation : Operation)
    (a : OperationStartAuthorization ℕ) (now : DateTime) (id : Uuid)
    → IsValid s
    → IsValid (start s operator_id operation a now id).1
unfolding start
start-IsValid s operator_id operation a now id v =
    elim (Result-cases (new_session s operator_id operation a now id)) [
      | inl (x, e) ↦ rw (start, e) v
      | inr (w, e) ↦
          rw (start, e)
            (record {
              running = new_session-IsRunning s operator_id operation a now id e;
              last = v.last;
            })
    ]

-- Every call keeps the invariant.
step-IsValid : (s : SessionService) (c : Call) → IsValid s → IsValid (step s c)
unfolding step complete finish_current interrupt_active
step-IsValid s (start_call operator_id operation a now id) v =
    start-IsValid s operator_id operation a now id v
step-IsValid s (complete_call id now) v = elim (Option-cases s.current) [
  | inl idle ↦ rw (step, complete, finish_current, idle) v
  | inr (w, cur) ↦ elim (Bool-cases (w.session_id == id)) [
    | inl same ↦
        rw (step, complete, finish_current, cur, same) (store_finished-IsValid s w now completed v)
    | inr other ↦ rw (step, complete, finish_current, cur, other) v
  ]
]
step-IsValid s (interrupt_call now) v = elim (Option-cases s.current) [
  | inl idle ↦ rw (step, interrupt_active, idle) v
  | inr (w, cur) ↦ rw (step, interrupt_active, cur) (store_finished-IsValid s w now interrupted v)
]

run-IsValid : (s : SessionService) (calls : List Call) → IsValid s → IsValid (run s calls)
unfolding run
run-IsValid s [] v = v
run-IsValid s (c ∷ cs) v = run-IsValid (step s c) cs (step-IsValid s c v)

-- After any calls of a new service, the current session, if any, is active and one that the
-- constructor accepts, and the last finished one, if any, is not active and one that the
-- constructor accepts.
pub service_init-run-IsValid :
    (maximum_age : ℕ) {s : SessionService} (calls : List Call)
    → service_init maximum_age ≡ ok s
    → IsValid (run s calls)
unfolding service_init
service_init-run-IsValid maximum_age {s} calls h =
    run-IsValid s calls (fresh-IsValid (ground arith) (ground arith))
  where
    fresh-IsValid : s.current ≡ none → s.last_finished ≡ none → IsValid s
    fresh-IsValid idle fresh = record {
      running = subst Running (sym idle) tt;
      last = subst Ended (sym fresh) tt;
    }
