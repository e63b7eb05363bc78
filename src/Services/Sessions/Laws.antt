-- ===== src/Services/Sessions/Laws.antt =====
-- `start` of 2identify_operador/app/services/work_session_service.py.
use identify.Base.{
  ℕ, ◌+◌, ◌≤◌, ◌≡◌, refl, true, false, none, some, arith, opt_all, DateTime, naive, aware,
}
use identify.Base.Result.{ok}
use identify.Domain.Alert.{Uuid, is_positive}
use identify.Domain.Operation.{Operation}
use identify.Domain.WorkSession.{
  WorkSession, WorkSessionStatus, completed, interrupted, OperationStartAuthorization, session_init,
  check_session, check_times, authorization_init, check_ppe_ids, check_samples, session_end,
  session_fields, finish, is_nil,
}
use identify.Domain.WorkSession
use identify.Services.Sessions.Defs.{
  SessionService, same_set, required_ids, validate_authorization, camera_of, area_of, new_session,
  start,
}

abbrev pub authorization_fields :
    OperationStartAuthorization ℕ → OperationStartAuthorization DateTime
authorization_fields a = record {
  operation_id = a.operation_id;
  verified_ppe_ids = a.verified_ppe_ids;
  sample_count = a.sample_count;
  window_size = a.window_size;
  authorized_at = aware a.authorized_at;
}

-- The terms on which an operation starts at the instant `t`.
pub record MayStart (s : SessionService) (operation : Operation) (a : OperationStartAuthorization ℕ)
    (t : ℕ) : Type 0 where
  pub idle : s.current ≡ none
  pub operation_active : operation.active ≡ true
  pub same_operation : a.operation_id ≡ operation.operation_id
  pub some_ppe : is_nil (required_ids operation) ≡ false
  pub all_ppe : same_set a.verified_ppe_ids (required_ids operation) ≡ true
  pub verified_before : a.authorized_at ≤ t
  pub fresh : t ≤ a.authorized_at + s.maximum_authorization_age

-- The identifiers that a new session takes over are ones that it accepts.
pub record GoodIds (operator_id : ℕ) (operation : Operation) : Type 0 where
  pub operator : is_positive operator_id ≡ true
  pub operation_id : is_positive operation.operation_id ≡ true
  pub camera : opt_all is_positive (camera_of operation.risk_area) ≡ true
  pub area : opt_all is_positive (area_of operation.risk_area) ≡ true

abbrev pub started_session :
    ℕ → Operation → OperationStartAuthorization ℕ → ℕ → Uuid → WorkSession ℕ
started_session operator_id operation a t session_id = record {
  session_id = session_id;
  operator_id = operator_id;
  operation_id = operation.operation_id;
  camera_id = camera_of operation.risk_area;
  risk_area_id = area_of operation.risk_area;
  verified_ppe_ids = a.verified_ppe_ids;
  safety_verified_at = a.authorized_at;
  ppe_sample_count = a.sample_count;
  ppe_window_size = a.window_size;
  started_at = t;
  finished_at = none;
  status = WorkSession.active;
}

-- If starting a session returns one, then no session was current, the operation is active, the
-- authorization is for it, verifies exactly its required items, of which there is at least one, and
-- was given at or before the instant of the clock and is not older than the maximum, and the
-- session carries that evidence and is now current.
pub start_needs_authorization :
    (s : SessionService) (operator_id : ℕ) (operation : Operation)
    (a : OperationStartAuthorization ℕ) (now : DateTime) (session_id : Uuid) {w : WorkSession ℕ}
    {s' : SessionService}
    → start s operator_id operation a now session_id ≡ (ok w, s')
    → (t : ℕ) × (now ≡ aware t)
      × MayStart s operation a t
      × (w ≡ started_session operator_id operation a t session_id)
      × (s' ≡ record s { current = some w })
unfolding start new_session validate_authorization session_init check_session check_times
    session_end
start_needs_authorization s operator_id operation a (naive t) session_id h = absurd (ground arith)
start_needs_authorization s operator_id operation a (aware t) session_id h =
    (t, refl, ground arith, ground arith, ground arith)

-- On the terms of a start, with an authorization that the constructor built and identifiers that a
-- session accepts, the start returns the session and makes it current.
pub start_succeeds :
    (s : SessionService) (operator_id : ℕ) (operation : Operation)
    (a : OperationStartAuthorization ℕ) (t : ℕ) (session_id : Uuid)
    → MayStart s operation a t
    → authorization_init (authorization_fields a) ≡ ok a
    → GoodIds operator_id operation
    → let w = started_session operator_id operation a t session_id in
      start s operator_id operation a (aware t) session_id ≡ (ok w, record s { current = some w })
unfolding start new_session validate_authorization session_init check_session check_times
    session_end authorization_init
start_succeeds s operator_id operation a t session_id m b g = ground arith
