-- ===== src/Services/Sessions/Examples.antt =====
-- A session of 2identify_operador/app/services/work_session_service.py, from its start to its end.
use identify.Base.{
  ℕ, ◌≤◌, ◌<◌, ◌≡◌, ◌⊎◌, refl, true, none, some, [], ◌∷◌, arith, codes, naive, aware,
}
use identify.Base.Result.{ok, err, value_error}
use identify.Domain.Operation.{Operation}
use identify.Domain.WorkSession.{
  WorkSession, OperationStartAuthorization, completed, session_init, check_session, check_times,
  session_end, authorization_init, check_ppe_ids, check_samples,
}
use identify.Services.Sessions.Defs.{
  SessionService, same_set, validate_authorization, new_session, start, complete, service_init,
}
use identify.Services.Sessions.Laws.{
  MayStart, authorization_fields, started_session, start_needs_authorization, start_succeeds,
}
use identify.Services.Sessions.Lifecycle.{
  IsRunning, IsValid, start_call, complete_call, interrupt_call, run, ended, complete_lem,
  service_init-run-IsValid,
}

abbrev welding : Operation
welding = record {
  operation_id = 3;
  name = codes "welding";
  required_ppe =
      record { ppe_id = 4; name = codes "helmet"; detection_class = some (codes "helmet") } ∷ [];
  risk_area = none;
  active = true;
}

abbrev verified : OperationStartAuthorization ℕ
verified = record {
  operation_id = 3;
  verified_ppe_ids = 4 ∷ [];
  sample_count = 5;
  window_size = 5;
  authorized_at = 50;
}

abbrev idle : SessionService
idle = record { maximum_authorization_age = 30; current = none; last_finished = none }

abbrev running : WorkSession ℕ
running = started_session 2 welding verified 60 1

abbrev busy : SessionService
busy = record idle { current = some running }

started : start idle 2 welding verified (aware 60) 1 ≡ (ok running, busy)
unfolding start new_session validate_authorization same_set session_init check_session check_times
    session_end check_ppe_ids check_samples
started = refl

start_needs_authorization_example :
    (t : ℕ) × (aware 60 ≡ aware t)
    × MayStart idle welding verified t
    × (running ≡ started_session 2 welding verified t 1)
    × (busy ≡ record idle { current = some running })
start_needs_authorization_example =
    start_needs_authorization idle 2 welding verified (aware 60) 1 {w = running} {s' = busy} started

may_start : MayStart idle welding verified 60
unfolding same_set
may_start = record {
  idle = refl;
  operation_active = refl;
  same_operation = refl;
  some_ppe = refl;
  all_ppe = refl;
  verified_before = omega arith;
  fresh = omega arith;
}

verified_built : authorization_init (authorization_fields verified) ≡ ok verified
unfolding authorization_init check_ppe_ids check_samples
verified_built = refl

start_succeeds_example :
    start idle 2 welding verified (aware 60) 1
    ≡ (ok running, record idle { current = some running })
start_succeeds_example =
    start_succeeds idle 2 welding verified 60 1 may_start verified_built
      (record { operator = refl; operation_id = refl; camera = refl; area = refl })

running-IsRunning : IsRunning running
unfolding session_init check_session check_times session_end check_ppe_ids check_samples
running-IsRunning = record { built = refl; is_active = refl }

complete_example :
    ((60 ≤ 90)
      × (complete busy 1 (aware 90) ≡ (
        ok (ended running 90 completed),
        record busy { current = none; last_finished = some (ended running 90 completed) },
      )))
    ⊎ ((90 < 60) × (complete busy 1 (aware 90) ≡ (err value_error, busy)))
complete_example = complete_lem busy running 90 refl running-IsRunning

fresh_service : service_init 30 ≡ ok idle
unfolding service_init
fresh_service = refl

service_init-run-IsValid_example : IsValid (
    run idle (
      start_call 2 welding verified (aware 60) 1
      ∷ complete_call 1 (aware 90)
      ∷ interrupt_call (naive 95)
      ∷ []))
service_init-run-IsValid_example =
    service_init-run-IsValid 30 {s = idle}
      (start_call 2 welding verified (aware 60) 1
        ∷ complete_call 1 (aware 90)
        ∷ interrupt_call (naive 95)
        ∷ [])
      fresh_service
