-- ===== src/Domain/WorkSession.antt =====
-- 2identify_operador/app/domain/work_session.py: the start authorization and the work session.
-- `T` is `DateTime` for a value under construction and an instant for a finished one.
use identify.Base.{
  ℕ, Bool, true, false, not, ◌&&◌, ◌||◌, Option, none, some, List, [], ◌∷◌, ltb, leb, ◌==◌, is_some,
  opt_all, any, DateTime, as_utc, aware,
}
use identify.Base.Result.{Result, ok, value_error, ◌>>=◌, ◌>>◌, raise_if, or_raise}
use identify.Domain.Alert.{Uuid, is_positive}
use mathlib.Core.Option

pub data WorkSessionStatus : Type 0 where
  active completed interrupted : WorkSessionStatus

-- `x in items`, for numbers
abbrev pub mem : ℕ → List ℕ → Bool
mem x items = any (λ y. y == x) items

-- `len(set(items)) == len(items)`
abbrev pub unique : List ℕ → Bool
unique [] = true
unique (x ∷ xs) = not (mem x xs) && unique xs

abbrev pub is_nil : List ℕ → Bool
is_nil [] = true
is_nil (x ∷ xs) = false

-- the checks that both constructors make on the identifiers and on the sampling
unfoldable pub check_ppe_ids : List ℕ → Result (Unit {0})
check_ppe_ids ids = do
  raise_if (is_nil ids || any (λ item. not (is_positive item)) ids) value_error
  raise_if (not (unique ids)) value_error

unfoldable pub check_samples : ℕ → ℕ → Result (Unit {0})
check_samples sample_count window_size =
    raise_if (ltb window_size 1 || not (leb 1 sample_count && leb sample_count window_size))
      value_error

pub record OperationStartAuthorization (T : Type 0) : Type 0 where
  pub operation_id : ℕ
  pub verified_ppe_ids : List ℕ
  pub sample_count : ℕ
  pub window_size : ℕ
  pub authorized_at : T

-- `OperationStartAuthorization.__post_init__`
unfoldable pub authorization_init :
    OperationStartAuthorization DateTime → Result (OperationStartAuthorization ℕ)
authorization_init a = do
  raise_if (not (is_positive a.operation_id)) value_error
  check_ppe_ids a.verified_ppe_ids
  check_samples a.sample_count a.window_size
  authorized_at ← or_raise (as_utc a.authorized_at) value_error
  ok (record {
    operation_id = a.operation_id;
    verified_ppe_ids = a.verified_ppe_ids;
    sample_count = a.sample_count;
    window_size = a.window_size;
    authorized_at = authorized_at;
  })

pub record WorkSession (T : Type 0) : Type 0 where
  pub session_id : Uuid
  pub operator_id : ℕ
  pub operation_id : ℕ
  pub camera_id : Option ℕ
  pub risk_area_id : Option ℕ
  pub verified_ppe_ids : List ℕ
  pub safety_verified_at : T
  pub ppe_sample_count : ℕ
  pub ppe_window_size : ℕ
  pub started_at : T
  pub finished_at : Option T
  pub status : WorkSessionStatus

abbrev pub is_active : WorkSessionStatus → Bool
is_active active = true
is_active _ = false

-- `finished_at`, checked against the status: the value to store
unfoldable pub session_end : Bool → Option DateTime → ℕ → Result (Option ℕ)
session_end true finished_at started_at = do raise_if (is_some finished_at) value_error; ok none
session_end false finished_at started_at = do
  given ← or_raise finished_at value_error
  ended ← or_raise (as_utc given) value_error
  raise_if (ltb ended started_at) value_error
  ok (some ended)

-- the checks of `WorkSession.__post_init__` on the identifiers, the PPE and the sampling
unfoldable pub check_session : ℕ → ℕ → Option ℕ → Option ℕ → List ℕ → ℕ → ℕ → Result (Unit {0})
check_session operator_id operation_id camera_id risk_area_id ppe_ids sample_count window_size = do
  raise_if (not (is_positive operator_id && is_positive operation_id)) value_error
  raise_if (not (opt_all is_positive camera_id)) value_error
  raise_if (not (opt_all is_positive risk_area_id)) value_error
  check_ppe_ids ppe_ids
  check_samples sample_count window_size

-- its checks on the three instants: the values to store
unfoldable pub check_times :
    DateTime → DateTime → Option DateTime → Bool → Result (ℕ × ℕ × Option ℕ)
check_times safety_verified_at started_at finished_at is_active = do
  verified ← or_raise (as_utc safety_verified_at) value_error
  started ← or_raise (as_utc started_at) value_error
  raise_if (ltb started verified) value_error
  ended ← session_end is_active finished_at started
  ok (verified, started, ended)

-- `WorkSession.__post_init__`
unfoldable pub session_init : WorkSession DateTime → Result (WorkSession ℕ)
session_init w = do
  check_session w.operator_id w.operation_id w.camera_id w.risk_area_id w.verified_ppe_ids
      w.ppe_sample_count w.ppe_window_size
  (safety_verified_at, started_at, finished_at) ←
      check_times w.safety_verified_at w.started_at w.finished_at (is_active w.status)
  ok (record {
    session_id = w.session_id;
    operator_id = w.operator_id;
    operation_id = w.operation_id;
    camera_id = w.camera_id;
    risk_area_id = w.risk_area_id;
    verified_ppe_ids = w.verified_ppe_ids;
    safety_verified_at = safety_verified_at;
    ppe_sample_count = w.ppe_sample_count;
    ppe_window_size = w.ppe_window_size;
    started_at = started_at;
    finished_at = finished_at;
    status = w.status;
  })

-- The arguments that `dataclasses.replace` passes on from a finished session.
abbrev pub session_fields : WorkSession ℕ → WorkSession DateTime
session_fields w = record {
  session_id = w.session_id;
  operator_id = w.operator_id;
  operation_id = w.operation_id;
  camera_id = w.camera_id;
  risk_area_id = w.risk_area_id;
  verified_ppe_ids = w.verified_ppe_ids;
  safety_verified_at = aware w.safety_verified_at;
  ppe_sample_count = w.ppe_sample_count;
  ppe_window_size = w.ppe_window_size;
  started_at = aware w.started_at;
  finished_at = Option.map aware w.finished_at;
  status = w.status;
}

-- `WorkSession.finish`
unfoldable pub finish : WorkSession ℕ → DateTime → WorkSessionStatus → Result (WorkSession ℕ)
finish w finished_at status = do
  raise_if (not (is_active w.status)) value_error
  raise_if (is_active status) value_error
  session_init (record (session_fields w) { finished_at = some finished_at; status = status })
