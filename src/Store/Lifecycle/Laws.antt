-- ===== src/Store/Lifecycle/Laws.antt =====
-- The transitions of an alert: 2identify_api/app/repositories/admin_alert_repository.py.
use identify.Base.{
  ℕ, ◌==◌, ◌≡◌, ◌⊎◌, refl, sym, ap, false, Option, some, List, [], ◌∷◌, arith, Bool-cases,
  Option-cases, inl, inr, Text, text_eq, text_eq_iff, text_eq_refl, Str, normalize,
}
use mathlib.Core.Path.{subst}
use identify.Base.Result.{ok, err, state_conflict_error}
use identify.Store.Lifecycle.Defs.{
  AdminAlertRecord, get, put, unread, read, closed, locked_status, confirmed, ended, confirm, close,
}

get-put :
    (k : ℕ) (change : AdminAlertRecord → AdminAlertRecord) (alerts : List AdminAlertRecord)
    (a : AdminAlertRecord)
    → ((b : AdminAlertRecord) → (change b).alert_id ≡ b.alert_id)
    → get k alerts ≡ some a
    → get k (put k change alerts) ≡ some (change a)
unfolding get put
get-put k change [] a same h = absurd (ground arith)
get-put k change (b ∷ alerts) a same h = elim (Bool-cases (b.alert_id == k)) [
  | inl here ↦ let e : b ≡ a = ground arith in ground (arith, same b, ap change e)
  | inr there ↦ ground (arith, get-put k change alerts a same)
]

-- The alert stands in the table, and its status reads so.
pub record Reads (py : Str) (k : ℕ) (status : Text) (a : AdminAlertRecord)
    (alerts : List AdminAlertRecord) : Type 0 where
  pub stored : get k alerts ≡ some a
  pub status_read : normalize py a.status ≡ status

unread-ne-closed : text_eq unread closed ≡ false
unfolding text_eq
unread-ne-closed = refl

read-ne-closed : text_eq read closed ≡ false
unfolding text_eq
read-ne-closed = refl

read-ne-unread : text_eq read unread ≡ false
unfolding text_eq
read-ne-unread = refl

closed-ne-unread : text_eq closed unread ≡ false
unfolding text_eq
closed-ne-unread = refl

closed-ne-read : text_eq closed read ≡ false
unfolding text_eq
closed-ne-read = refl

-- A row that a transition has given a status.
Reads-subst :
    (py : Str) (k : ℕ) (status : Text) {a b : AdminAlertRecord}
    {alerts alerts' : List AdminAlertRecord}
    → b ≡ a
    → alerts' ≡ alerts
    → Reads py k status a alerts
    → Reads py k status b alerts'
Reads-subst py k status {a} {b} {alerts} {alerts'} same table h =
    subst (λ x. Reads py k status x alerts') (sym same) (subst (Reads py k status a) (sym table) h)

confirm-Reads :
    (py : Str) (k administrator now : ℕ) (observation : Option Text)
    (alerts : List AdminAlertRecord) {r : AdminAlertRecord} {alerts' : List AdminAlertRecord}
    → normalize py read ≡ read
    → confirm py k administrator observation now alerts ≡ (ok r, alerts')
    → Reads py k read r alerts'
unfolding confirm locked_status
confirm-Reads py k administrator now observation alerts {r} {alerts'} plain h =
    elim (Option-cases (get k alerts)) [
      | inl missing ↦ absurd (ground arith)
      | inr (a, stored) ↦ elim (Bool-cases (text_eq (normalize py a.status) closed)) [
        | inl over ↦ absurd (ground arith)
        | inr still_open ↦ elim (Bool-cases (text_eq (normalize py a.status) unread)) [
          | inl first ↦
              let change = confirmed now administrator observation in
              let written = get-put k change alerts a (λ b. refl) stored in
              Reads-subst py k read {a = change a} {alerts = put k change alerts}
                (ground (arith, written)) (ground arith)
                (record { stored = written; status_read = plain })
          | inr again ↦ elim (Bool-cases (text_eq (normalize py a.status) read)) [
            | inl seen ↦
                Reads-subst py k read {a = a} {alerts = alerts} (ground arith) (ground arith)
                  (record {
                    stored = stored;
                    status_read = (text_eq_iff (normalize py a.status) read).0 seen;
                  })
            | inr unknown ↦ absurd (ground arith)
          ]
        ]
      ]
    ]

Reads-confirm :
    (py : Str) (k administrator now : ℕ) (observation : Option Text)
    (alerts : List AdminAlertRecord) (r : AdminAlertRecord)
    → Reads py k read r alerts
    → confirm py k administrator observation now alerts ≡ (ok r, alerts)
unfolding confirm locked_status
Reads-confirm py k administrator now observation alerts r h =
    ground (arith, h.stored, h.status_read, read-ne-closed, read-ne-unread, text_eq_refl read)

-- If str methods leave the word for a confirmed alert as it is, then after a confirmation that
-- returns a record any other confirmation returns the same record and changes nothing, so that the
-- first administrator and instant stay.
pub confirm_idempotent :
    (py : Str) (alert_id : ℕ) (administrator other now later : ℕ) (observation remark : Option Text)
    (alerts : List AdminAlertRecord) {r : AdminAlertRecord} {alerts' : List AdminAlertRecord}
    → normalize py read ≡ read
    → confirm py alert_id administrator observation now alerts ≡ (ok r, alerts')
    → confirm py alert_id other remark later alerts' ≡ (ok r, alerts')
confirm_idempotent py k administrator other now later observation remark alerts {r} {alerts'} plain
      h =
    Reads-confirm py k other later remark alerts' r
      (confirm-Reads py k administrator now observation alerts plain h)

close-Reads :
    (py : Str) (k administrator now : ℕ) (observation : Option Text)
    (alerts : List AdminAlertRecord) {r : AdminAlertRecord} {alerts' : List AdminAlertRecord}
    → normalize py closed ≡ closed
    → close py k administrator observation now alerts ≡ (ok r, alerts')
    → Reads py k closed r alerts'
      × (a : AdminAlertRecord) × (Reads py k read a alerts ⊎ Reads py k closed a alerts)
unfolding close locked_status
close-Reads py k administrator now observation alerts {r} {alerts'} plain h =
    elim (Option-cases (get k alerts)) [
      | inl missing ↦ absurd (ground arith)
      | inr (a, stored) ↦ elim (Bool-cases (text_eq (normalize py a.status) unread)) [
        | inl new ↦ absurd (ground arith)
        | inr old ↦ elim (Bool-cases (text_eq (normalize py a.status) read)) [
          | inl first ↦
              let change = ended now administrator observation in
              let written = get-put k change alerts a (λ b. refl) stored in
              let was = (text_eq_iff (normalize py a.status) read).0 first in
              (
                Reads-subst py k closed {a = change a} {alerts = put k change alerts}
                    (ground (arith, written)) (ground arith)
                    (record { stored = written; status_read = plain }),
                a,
                inl (record { stored = stored; status_read = was }),
              )
          | inr again ↦ elim (Bool-cases (text_eq (normalize py a.status) closed)) [
            | inl over ↦
                let was = (text_eq_iff (normalize py a.status) closed).0 over in
                (
                  Reads-subst py k closed {a = a} {alerts = alerts} (ground arith) (ground arith)
                      (record { stored = stored; status_read = was }),
                  a,
                  inr (record { stored = stored; status_read = was }),
                )
            | inr unknown ↦ absurd (ground arith)
          ]
        ]
      ]
    ]

Reads-close :
    (py : Str) (k administrator now : ℕ) (observation : Option Text)
    (alerts : List AdminAlertRecord) (r : AdminAlertRecord)
    → Reads py k closed r alerts
    → (close py k administrator observation now alerts ≡ (ok r, alerts))
      × (confirm py k administrator observation now alerts ≡ (err state_conflict_error, alerts))
unfolding close confirm locked_status
Reads-close py k administrator now observation alerts r h = (
  ground (arith, h.stored, h.status_read, closed-ne-unread, closed-ne-read, text_eq_refl closed),
  ground (arith, h.stored, h.status_read, text_eq_refl closed),
)

-- If str methods leave the word for a closed alert as it is, then a closing that returns a record
-- was of an alert whose status read as confirmed or closed, and after it closing again returns the
-- same record and confirming is refused, both without a change.
pub close_final :
    (py : Str) (alert_id : ℕ) (administrator other now later : ℕ) (observation remark : Option Text)
    (alerts : List AdminAlertRecord) {r : AdminAlertRecord} {alerts' : List AdminAlertRecord}
    → normalize py closed ≡ closed
    → close py alert_id administrator observation now alerts ≡ (ok r, alerts')
    → ((a : AdminAlertRecord) × (Reads py alert_id read a alerts
          ⊎ Reads py alert_id closed a alerts))
      × (close py alert_id other remark later alerts' ≡ (ok r, alerts'))
      × (confirm py alert_id other remark later alerts' ≡ (err state_conflict_error, alerts'))
close_final py k administrator other now later observation remark alerts {r} {alerts'} plain h =
    let (now_closed, a, before) = close-Reads py k administrator now observation alerts plain h in
    let (again, refused) = Reads-close py k other later remark alerts' r now_closed in
    ((a, before), again, refused)
