-- ===== src/Services/Sessions/Defs.antt =====
-- 2identify_operador/app/services/work_session_service.py, class `WorkSessionService`. Each method
-- holds the lock from its first read to its last write, so a call is one step. The values that the
-- injected clock and identifier factory return in a call are its arguments.
use identify.Base.{
  ℕ, ◌+◌, Bool, not, ◌&&◌, ◌||◌, Option, none, some, List, map, all, leb, ◌==◌, is_some, DateTime,
  as_utc, aware, if◌then◌else◌,
}
use identify.Base.Result.{
  Result, ok, err, value_error, work_session_error, authorization_error, already_active_error,
  not_found_error, ◌>>=◌, ◌>>◌, raise_if, or_raise,
}
use identify.Domain.Alert.{Uuid}
use identify.Domain.Operation.{Operation, RiskAreaReference}
use identify.Domain.WorkSession.{
  WorkSession, WorkSessionStatus, completed, interrupted, OperationStartAuthorization, session_init,
  finish, mem, is_nil,
}
use identify.Domain.WorkSession

pub record SessionService : Type 0 where
  pub maximum_authorization_age : ℕ
  pub current : Option (WorkSession ℕ)
  pub last_finished : Option (WorkSession ℕ)

-- `WorkSessionService.__init__`
unfoldable pub service_init : ℕ → Result SessionService
service_init maximum_age =
    if leb maximum_age 0
    then err value_error
    else ok
        (record { maximum_authorization_age = maximum_age; current = none; last_finished = none })

-- `set(xs) == set(ys)`
unfoldable pub same_set : List ℕ → List ℕ → Bool
same_set xs ys = all (λ x. mem x ys) xs && all (λ y. mem y xs) ys

abbrev pub required_ids : Operation → List ℕ
required_ids o = map (λ r. r.ppe_id) o.required_ppe

-- `_validate_authorization`; the age lies between zero and the maximum
unfoldable pub validate_authorization :
    ℕ → Operation → OperationStartAuthorization ℕ → ℕ → Result (Unit {0})
validate_authorization maximum_age operation a started_at = do
  raise_if (not operation.active) authorization_error
  raise_if (not (a.operation_id == operation.operation_id)) authorization_error
  raise_if
      (is_nil (required_ids operation)
        || not (same_set a.verified_ppe_ids (required_ids operation)))
      authorization_error
  raise_if (not (leb a.authorized_at started_at && leb started_at (a.authorized_at + maximum_age)))
      authorization_error

-- the camera and the area of the operation, if it has one
abbrev pub camera_of : Option RiskAreaReference → Option ℕ
camera_of none = none
camera_of (some area) = area.camera_id

abbrev pub area_of : Option RiskAreaReference → Option ℕ
area_of none = none
area_of (some area) = some area.risk_area_id

-- what `start` computes before it writes
unfoldable pub new_session :
    SessionService
    → ℕ
    → Operation
    → OperationStartAuthorization ℕ
    → DateTime
    → Uuid
    → Result (WorkSession ℕ)
new_session s operator_id operation a now session_id = do
  raise_if (is_some s.current) already_active_error
  started_at ← or_raise (as_utc now) work_session_error
  validate_authorization s.maximum_authorization_age operation a started_at
  session_init (record {
    session_id = session_id;
    operator_id = operator_id;
    operation_id = operation.operation_id;
    camera_id = camera_of operation.risk_area;
    risk_area_id = area_of operation.risk_area;
    verified_ppe_ids = a.verified_ppe_ids;
    safety_verified_at = aware a.authorized_at;
    ppe_sample_count = a.sample_count;
    ppe_window_size = a.window_size;
    started_at = aware started_at;
    finished_at = none;
    status = WorkSession.active;
  })

-- `start`
unfoldable pub start :
    SessionService
    → ℕ
    → Operation
    → OperationStartAuthorization ℕ
    → DateTime
    → Uuid
    → Result (WorkSession ℕ) × SessionService
start s operator_id operation a now session_id =
    elim (new_session s operator_id operation a now session_id) [
      | err x ↦ (err x, s)
      | ok w ↦ (ok w, record s { current = some w })
    ]

-- `require_current`
unfoldable pub require_current : SessionService → Result (WorkSession ℕ)
require_current s = or_raise s.current not_found_error

-- the writes that end a session
unfoldable pub store_finished :
    SessionService → Result (WorkSession ℕ) → Result (WorkSession ℕ) × SessionService
store_finished s (err x) = (err x, s)
store_finished s (ok w) = (ok w, record s { current = none; last_finished = some w })

-- `current.finish(_as_utc(self._clock()), status)`
unfoldable pub finish_at : WorkSession ℕ → DateTime → WorkSessionStatus → Result (WorkSession ℕ)
finish_at w now status = do t ← or_raise (as_utc now) work_session_error; finish w (aware t) status

-- `_finish`
unfoldable pub finish_current :
    SessionService → Uuid → WorkSessionStatus → DateTime → Result (WorkSession ℕ) × SessionService
finish_current s session_id status now = elim s.current [
  | none ↦ (err not_found_error, s)
  | some w ↦
      if w.session_id == session_id
      then store_finished s (finish_at w now status)
      else (err not_found_error, s)
]

-- `complete`
unfoldable pub complete : SessionService → Uuid → DateTime → Result (WorkSession ℕ) × SessionService
complete s session_id now = finish_current s session_id completed now

-- `interrupt_active`, which returns nothing when no session is active
unfoldable pub interrupt_active :
    SessionService → DateTime → Option (Result (WorkSession ℕ)) × SessionService
interrupt_active s now = elim s.current [
  | none ↦ (none, s)
  | some w ↦ let (r, s') = store_finished s (finish_at w now interrupted) in (some r, s')
]
