-- ===== src/Store/Alerts/Laws.antt =====
-- Repeated deliveries of an alert event: 2identify_api/app/repositories/safety_alert_repository.py.
use identify.Base.{
  ℕ, ◌==◌, ==_iff, ◌≡◌, ◌∙◌, refl, sym, ap, true, false, ◌&&◌, ◌||◌, none, some, List, [], ◌∷◌,
  ◌++◌, arith, if◌then◌else◌, Bool-cases, Option-cases, inl, inr, Text, text_eq, text_eq_refl,
  codes,
}
use mathlib.Core.Path.{subst}
use identify.Base.Result.{ok}
use identify.Domain.Alert.{Uuid}
use identify.Store.Alerts.Defs.{
  critico, aviso, PersistedAlert, SafetyAlertIngestion, Database, AlertEvent, StoredAlert, Commit,
  accepted, conflicting, is_critical, is_critico, get_ingestion, get_alert, escalate_level,
  escalated_rows, set_payload_hash, existing, inserted, store,
}

get_ingestion-append :
    (k : Uuid) (is : List SafetyAlertIngestion) (i : SafetyAlertIngestion)
    → get_ingestion k is ≡ none
    → i.event_id ≡ k
    → get_ingestion k (is ++ i ∷ []) ≡ some i
unfolding get_ingestion
get_ingestion-append k [] i h e = ground arith
get_ingestion-append k (j ∷ is) i h e = ground (arith, get_ingestion-append k is i)

get_alert-append :
    (k : ℕ) (alerts : List PersistedAlert) (a : PersistedAlert)
    → get_alert k alerts ≡ none
    → a.id ≡ k
    → get_alert k (alerts ++ a ∷ []) ≡ some a
unfolding get_alert
get_alert-append k [] a h e = ground arith
get_alert-append k (b ∷ alerts) a h e = ground (arith, get_alert-append k alerts a)

escalated_rows-append :
    (k : ℕ) (alerts : List PersistedAlert) (a : PersistedAlert)
    → get_alert k alerts ≡ none
    → is_critico a.level ≡ true
    → escalated_rows k (alerts ++ a ∷ []) ≡ 0
unfolding get_alert escalated_rows
escalated_rows-append k [] a h e = ground arith
escalated_rows-append k (b ∷ alerts) a h e = ground (arith, escalated_rows-append k alerts a)

escalated_rows-escalate_level :
    (k : ℕ) (alerts : List PersistedAlert) → escalated_rows k (escalate_level k alerts) ≡ 0
unfolding escalate_level escalated_rows
escalated_rows-escalate_level k [] = refl
escalated_rows-escalate_level k (a ∷ alerts) =
    ground (arith, escalated_rows-escalate_level k alerts)

-- An escalation keeps the alert's occurrence.
get_alert-escalate_level :
    (k : ℕ) (alerts : List PersistedAlert) (a : PersistedAlert)
    → get_alert k alerts ≡ some a
    → get_alert k (escalate_level k alerts) ≡ some (record a { level = critico })
unfolding get_alert escalate_level
get_alert-escalate_level k [] a h = absurd (ground arith)
get_alert-escalate_level k (b ∷ alerts) a h = elim (Bool-cases (b.id == k)) [
  | inl here ↦ elim (Bool-cases (is_critico b.level)) [
    | inl high ↦ ground arith
    | inr low ↦ ground arith
  ]
  | inr there ↦ ground (arith, get_alert-escalate_level k alerts a)
]

get_ingestion-set_payload_hash :
    (k : Uuid) (hash : Text) (is : List SafetyAlertIngestion) (i : SafetyAlertIngestion)
    → get_ingestion k is ≡ some i
    → get_ingestion k (set_payload_hash k hash is) ≡ some (record i { payload_hash = hash })
unfolding get_ingestion set_payload_hash
get_ingestion-set_payload_hash k hash [] i h = absurd (ground arith)
get_ingestion-set_payload_hash k hash (j ∷ is) i h =
    ground (arith, get_ingestion-set_payload_hash k hash is i)

get_ingestion-event_id :
    (k : Uuid) (is : List SafetyAlertIngestion) (i : SafetyAlertIngestion)
    → get_ingestion k is ≡ some i
    → i.event_id ≡ k
unfolding get_ingestion
get_ingestion-event_id k [] i h = absurd (ground arith)
get_ingestion-event_id k (j ∷ is) i h = elim (Bool-cases (j.event_id == k)) [
  | inl here ↦
      let same : j ≡ i = ground arith in
      sym (ap (λ x. x.event_id) same) ∙ (==_iff j.event_id k).0 here
  | inr there ↦ get_ingestion-event_id k is i (ground arith)
]

-- What a second delivery finds of an answered one.
abbrev Answered : AlertEvent → StoredAlert → Database → Type 0
Answered e r db =
    (i : SafetyAlertIngestion) × (get_ingestion e.event_id db.ingestions ≡ some i)
    × (existing e i db ≡ (ok (record r { duplicate = true }), db))

existing_again :
    (e : AlertEvent) (i : SafetyAlertIngestion) (db db' : Database) (r : StoredAlert)
    → get_ingestion e.event_id db.ingestions ≡ some i
    → existing e i db ≡ (ok r, db')
    → Answered e r db'
unfolding existing
existing_again e i db db' r known h =
    elim (Bool-cases
      (text_eq i.payload_hash e.payload_hash || text_eq i.payload_hash e.legacy_payload_hash)) [
        | inr other ↦ absurd (ground arith)
        | inl same ↦ elim (Option-cases (get_alert i.alert_id db.alerts)) [
          | inl lost ↦ absurd (ground arith)
          | inr (a, there) ↦
              elim (Bool-cases
                (is_critical e.severity && (escalated_rows i.alert_id db.alerts == 1))) [
                  | inl escalated ↦
                      let written : db' ≡ record db {
                        alerts = escalate_level i.alert_id db.alerts;
                        ingestions = set_payload_hash i.event_id e.payload_hash db.ingestions;
                      } =
                        ground arith in
                      let found : get_ingestion e.event_id
                            (set_payload_hash i.event_id e.payload_hash db.ingestions)
                          ≡ some (record i { payload_hash = e.payload_hash }) =
                        subst
                          (λ k.
                            get_ingestion e.event_id
                              (set_payload_hash k e.payload_hash db.ingestions)
                            ≡ some (record i { payload_hash = e.payload_hash }))
                          (sym (get_ingestion-event_id e.event_id db.ingestions i known))
                          (get_ingestion-set_payload_hash e.event_id e.payload_hash db.ingestions i
                            known) in
                      subst (Answered e r) (sym written) (
                        record i { payload_hash = e.payload_hash },
                        found,
                        ground (
                          arith,
                          text_eq_refl e.payload_hash,
                          get_alert-escalate_level i.alert_id db.alerts a there,
                          escalated_rows-escalate_level i.alert_id db.alerts,
                        ),
                      )
                  | inr kept ↦
                      let unwritten : db' ≡ db = ground arith in
                      subst (Answered e r) (sym unwritten) (i, known, ground arith)
                ]
        ]
      ]

-- What the database gives a new alert: an identifier that no row has.
abbrev pub IsFresh : ℕ → Database → Type 0
IsFresh alert_id db = get_alert alert_id db.alerts ≡ none

inserted_again :
    (e : AlertEvent) (now occurrence_id alert_id : ℕ) (db : Database) (r : StoredAlert)
    → get_ingestion e.event_id db.ingestions ≡ none
    → IsFresh alert_id db
    → r ≡ record {
      event_id = e.event_id;
      alert_id = alert_id;
      occurrence_id = occurrence_id;
      duplicate = false;
    }
    → Answered e r (inserted e now occurrence_id alert_id db)
unfolding inserted existing
inserted_again e now occurrence_id alert_id db r unknown fresh answer =
    let row : PersistedAlert = record {
      id = alert_id;
      occurrence_id = occurrence_id;
      level = if is_critical e.severity then critico else aviso;
      status = codes "nao_lido";
      observation = e.summary;
      created_at = e.detected_at;
      received_at = now;
    } in
    let read = get_alert-append alert_id db.alerts row fresh refl in
    (
      _,
      get_ingestion-append e.event_id db.ingestions _ unknown refl,
      elim (Bool-cases (is_critical e.severity)) [
        | inl high ↦ ground (
          arith,
          text_eq_refl e.payload_hash,
          answer,
          read,
          escalated_rows-append alert_id db.alerts row fresh (ground arith),
        )
        | inr low ↦ ground (arith, text_eq_refl e.payload_hash, answer, read)
      ],
    )

Answered-new :
    (e : AlertEvent) (now occurrence_id alert_id : ℕ) (commit : Commit) (db db' : Database)
    (r : StoredAlert)
    → IsFresh alert_id db
    → get_ingestion e.event_id db.ingestions ≡ none
    → store e now occurrence_id alert_id commit db ≡ (ok r, db')
    → Answered e r db'
unfolding store
Answered-new e now occurrence_id alert_id accepted db db' r fresh unknown h =
    let written : db' ≡ inserted e now occurrence_id alert_id db = ground arith in
    subst (Answered e r) (sym written)
      (inserted_again e now occurrence_id alert_id db r unknown fresh (ground arith))
Answered-new e now occurrence_id alert_id (conflicting raced) db db' r fresh unknown h =
    elim (Option-cases (get_ingestion e.event_id raced.ingestions)) [
      | inl nothing ↦ absurd (ground arith)
      | inr (i, known) ↦ existing_again e i raced db' r known (ground arith)
    ]

answered :
    (e : AlertEvent) (now occurrence_id alert_id : ℕ) (commit : Commit) (db db' : Database)
    (r : StoredAlert)
    → IsFresh alert_id db
    → store e now occurrence_id alert_id commit db ≡ (ok r, db')
    → Answered e r db'
unfolding store
answered e now occurrence_id alert_id commit db db' r fresh h =
    elim (Option-cases (get_ingestion e.event_id db.ingestions)) [
      | inr (i, known) ↦ existing_again e i db db' r known (ground arith)
      | inl unknown ↦ Answered-new e now occurrence_id alert_id commit db db' r fresh unknown h
    ]

-- An event that was delivered and answered is, when delivered again with the same payload, answered
-- with the same identifiers as a duplicate, and the database does not change, whether the first
-- delivery inserted it, found it, escalated it or lost a race; the identifier offered to the first
-- one is not that of an alert.
pub store_idempotent :
    (e : AlertEvent) (now occurrence_id alert_id : ℕ) (commit : Commit) (db db' : Database)
    (r : StoredAlert) (later other_occurrence other_alert : ℕ) (other_commit : Commit)
    → IsFresh alert_id db
    → store e now occurrence_id alert_id commit db ≡ (ok r, db')
    → store e later other_occurrence other_alert other_commit db'
      ≡ (ok (record r { duplicate = true }), db')
unfolding store
store_idempotent e now occurrence_id alert_id commit db db' r later other_occurrence other_alert
      other_commit fresh h =
    let (i, known, again) = answered e now occurrence_id alert_id commit db db' r fresh h in
    ground (arith, known, again)
