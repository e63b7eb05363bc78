-- ===== src/Store/Lifecycle/Defs.antt =====
-- 2identify_api/app/repositories/admin_alert_repository.py: the transitions of an alert. The table
-- holds the columns that they read and write. The details that `get` joins from other tables, and the
-- listing, are not modelled, so a record is the alert's row. The clock's value is an argument.
use identify.Base.{
  ℕ, ◌==◌, not, Option, none, some, List, [], ◌∷◌, if◌then◌else◌, Text, text_eq, codes, Str,
  normalize,
}
use identify.Base.Result.{Result, ok, err, alert_not_found_error, state_conflict_error, or_raise}

pub record AdminAlertRecord : Type 0 where
  pub alert_id : ℕ
  pub status : Text
  pub observation : Option Text
  pub confirmed_at : Option ℕ
  pub confirmed_by : Option ℕ
  pub closed_at : Option ℕ
  pub closed_by : Option ℕ

-- `get`
unfoldable pub get : ℕ → List AdminAlertRecord → Option AdminAlertRecord
get alert_id [] = none
get alert_id (a ∷ alerts) = if a.alert_id == alert_id then some a else get alert_id alerts

-- `update(...).where(id == alert_id).values(...)`
unfoldable pub put :
    ℕ → (AdminAlertRecord → AdminAlertRecord) → List AdminAlertRecord → List AdminAlertRecord
put alert_id change [] = []
put alert_id change (a ∷ alerts) =
    (if a.alert_id == alert_id then change a else a) ∷ put alert_id change alerts

abbrev pub unread : Text
unread = codes "nao_lido"

abbrev pub read : Text
read = codes "lido"

abbrev pub closed : Text
closed = codes "encerrado"

-- `_locked_status`
unfoldable pub locked_status : Str → ℕ → List AdminAlertRecord → Result Text
locked_status py alert_id alerts = elim (get alert_id alerts) [
  | none ↦ err alert_not_found_error
  | some a ↦ ok (normalize py a.status)
]

abbrev pub or_kept : Option Text → Option Text → Option Text
or_kept none old = old
or_kept (some new) old = some new

-- the values of `confirm` and of `close`
abbrev pub confirmed : ℕ → ℕ → Option Text → AdminAlertRecord → AdminAlertRecord
confirmed now administrator_id observation a = record a {
  status = read;
  confirmed_at = some now;
  confirmed_by = some administrator_id;
  observation = or_kept observation a.observation;
}

abbrev pub ended : ℕ → ℕ → Option Text → AdminAlertRecord → AdminAlertRecord
ended now administrator_id observation a = record a {
  status = closed;
  closed_at = some now;
  closed_by = some administrator_id;
  observation = or_kept observation a.observation;
}

-- `self.get` after the transition
abbrev pub answer : ℕ → List AdminAlertRecord → Result AdminAlertRecord × List AdminAlertRecord
answer alert_id alerts = (or_raise (get alert_id alerts) alert_not_found_error, alerts)

-- `confirm`
unfoldable pub confirm :
    Str
    → ℕ
    → ℕ
    → Option Text
    → ℕ
    → List AdminAlertRecord
    → Result AdminAlertRecord × List AdminAlertRecord
confirm py alert_id administrator_id observation now alerts =
    elim (locked_status py alert_id alerts) [
      | err x ↦ (err x, alerts)
      | ok status ↦
          if text_eq status closed
          then (err state_conflict_error, alerts)
          else if text_eq status unread
          then answer alert_id (put alert_id (confirmed now administrator_id observation) alerts)
          else if not (text_eq status read)
          then (err state_conflict_error, alerts)
          else answer alert_id alerts
    ]

-- `close`
unfoldable pub close :
    Str
    → ℕ
    → ℕ
    → Option Text
    → ℕ
    → List AdminAlertRecord
    → Result AdminAlertRecord × List AdminAlertRecord
close py alert_id administrator_id observation now alerts =
    elim (locked_status py alert_id alerts) [
      | err x ↦ (err x, alerts)
      | ok status ↦
          if text_eq status unread
          then (err state_conflict_error, alerts)
          else if text_eq status read
          then answer alert_id (put alert_id (ended now administrator_id observation) alerts)
          else if not (text_eq status closed)
          then (err state_conflict_error, alerts)
          else answer alert_id alerts
    ]
