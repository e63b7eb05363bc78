-- ===== src/Base/Result.antt =====
-- A call that returns or raises. One type names the Python exceptions of all components.
use mathlib.Core.Bool.{Bool, true, false}
use mathlib.Core.Path.{◌≡◌, refl}
use mathlib.Core.Logic.{◌⊎◌, inl, inr}
use mathlib.Core.Option.{Option, none, some}

pub data Exception : Type 0 where
  value_error runtime_error key_error index_error zero_division_error : Exception
  -- the subclasses of `WorkSessionError`
  work_session_error authorization_error already_active_error not_found_error : Exception
  -- the errors of the realtime broker
  broker_closed_error broker_capacity_error : Exception
  -- the errors of tokens and logins
  invalid_access_token_error authentication_rejected_error : Exception
  -- the errors of the alert repositories and of their database
  event_conflict_error integrity_error alert_not_found_error state_conflict_error : Exception

pub data Result {ℓ} (A : Type ℓ) : Type ℓ where
  ok : A → Result A
  err : Exception → Result A

-- `if test: raise e`
abbrev pub raise_if : Bool → Exception → Result (Unit {0})
raise_if true e = err e
raise_if false e = ok tt

-- A call, then what follows if it has not raised.
infixl 5 ◌>>=◌ ◌>>◌
abbrev pub ◌>>=◌ {κ ℓ} : {A : Type κ} {B : Type ℓ} → Result A → (A → Result B) → Result B
◌>>=◌ (err x) after = err x
◌>>=◌ (ok result) after = after result

abbrev pub ◌>>◌ {ℓ} : {B : Type ℓ} → Result (Unit {0}) → Result B → Result B
checked >> after = checked >>= λ done. after

abbrev pub or_raise {ℓ} : {A : Type ℓ} → Option A → Exception → Result A
or_raise none e = err e
or_raise (some a) e = ok a

pub Result-cases {ℓ} :
    {A : Type ℓ} (r : Result A) → ((x : Exception) × (r ≡ err x)) ⊎ ((a : A) × (r ≡ ok a))
Result-cases (ok a) = inr (a, refl)
Result-cases (err x) = inl (x, refl)
