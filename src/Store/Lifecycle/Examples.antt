-- ===== src/Store/Lifecycle/Examples.antt =====
-- An alert of 2identify_api/app/repositories/admin_alert_repository.py from unread to closed.
use identify.Base.{◌≡◌, ◌⊎◌, refl, none, some, [], ◌∷◌, codes, plain_str, normalize, text_eq}
use identify.Base.Result.{ok, err, state_conflict_error}
use identify.Store.Lifecycle.Defs.{
  AdminAlertRecord, get, put, unread, read, closed, locked_status, confirmed, ended, confirm, close,
}
use identify.Store.Lifecycle.Laws.{Reads, confirm_idempotent, close_final}

abbrev new : AdminAlertRecord
new = record {
  alert_id = 6;
  status = unread;
  observation = none;
  confirmed_at = none;
  confirmed_by = none;
  closed_at = none;
  closed_by = none;
}

abbrev seen : AdminAlertRecord
seen = confirmed 200 2 (some (codes "ok")) new

abbrev over : AdminAlertRecord
over = ended 300 3 none seen

plain_read : normalize plain_str read ≡ read
unfolding normalize
plain_read = refl

plain_closed : normalize plain_str closed ≡ closed
unfolding normalize
plain_closed = refl

first_confirmation : confirm plain_str 6 2 (some (codes "ok")) 200 (new ∷ []) ≡ (ok seen, seen ∷ [])
unfolding confirm locked_status get put normalize text_eq
first_confirmation = refl

confirm_idempotent_example : confirm plain_str 6 4 none 250 (seen ∷ []) ≡ (ok seen, seen ∷ [])
confirm_idempotent_example =
    confirm_idempotent plain_str 6 2 4 200 250 (some (codes "ok")) none (new ∷ []) {r = seen}
      {alerts' = seen ∷ []} plain_read first_confirmation

first_end : close plain_str 6 3 none 300 (seen ∷ []) ≡ (ok over, over ∷ [])
unfolding close locked_status get put normalize text_eq
first_end = refl

close_final_example :
    ((a : AdminAlertRecord) × (Reads plain_str 6 read a (seen ∷ [])
        ⊎ Reads plain_str 6 closed a (seen ∷ [])))
    × (close plain_str 6 4 none 400 (over ∷ []) ≡ (ok over, over ∷ []))
    × (confirm plain_str 6 4 none 400 (over ∷ []) ≡ (err state_conflict_error, over ∷ []))
close_final_example =
    close_final plain_str 6 3 4 300 400 none none (seen ∷ []) {r = over} {alerts' = over ∷ []}
      plain_closed first_end
