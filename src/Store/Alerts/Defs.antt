-- ===== src/Store/Alerts/Defs.antt =====
-- 2identify_api/app/repositories/safety_alert_repository.py. The database is its three tables as one
-- transaction sees them, the rows in the order of insertion. What the database decides is an argument:
-- the identifiers that `RETURNING` gives, and whether the commit is accepted or meets the row of
-- another transaction. A UUID is a number.
use identify.Base.{
  ℕ, suc, ◌==◌, Bool, true, false, not, ◌&&◌, ◌||◌, Option, none, some, List, [], ◌∷◌, ◌++◌,
  if◌then◌else◌, Text, text_eq, codes,
}
use identify.Base.Result.{Result, ok, err, runtime_error, event_conflict_error, integrity_error}
use identify.Domain.Alert.{Uuid, SafetyAlertSeverity, critical, warning}

-- a row of `SAFETY_OCCURRENCES`, less the columns that stay null
pub record SafetyOccurrence : Type 0 where
  pub id : ℕ
  pub camera_id : Option ℕ
  pub type : Text
  pub description : Text
  pub detected_at : ℕ

-- the values of `nivel`
pub data Level : Type 0 where
  critico aviso : Level

-- a row of `PERSISTED_SAFETY_ALERTS`, less the columns that this repository leaves null
pub record PersistedAlert : Type 0 where
  pub id : ℕ
  pub occurrence_id : ℕ
  pub level : Level
  pub status : Text
  pub observation : Text
  pub created_at : ℕ
  pub received_at : ℕ

-- `SafetyAlertIngestion`
pub record SafetyAlertIngestion : Type 0 where
  pub event_id : Uuid
  pub payload_hash : Text
  pub alert_id : ℕ
  pub work_session_id : Uuid
  pub operator_id : ℕ
  pub operation_id : ℕ
  pub risk_area_id : Option ℕ
  pub violation_type : Text
  pub subject_key : Text
  pub received_at : ℕ

pub record Database : Type 0 where
  pub occurrences : List SafetyOccurrence
  pub alerts : List PersistedAlert
  pub ingestions : List SafetyAlertIngestion

-- the arguments of `store`
pub record AlertEvent : Type 0 where
  pub event_id : Uuid
  pub payload_hash : Text
  pub legacy_payload_hash : Text
  pub work_session_id : Uuid
  pub operator_id : ℕ
  pub operation_id : ℕ
  pub camera_id : Option ℕ
  pub risk_area_id : Option ℕ
  pub violation_type : Text
  pub subject_key : Text
  pub summary : Text
  pub severity : SafetyAlertSeverity
  pub detected_at : ℕ

pub record StoredAlert : Type 0 where
  pub event_id : Uuid
  pub alert_id : ℕ
  pub occurrence_id : ℕ
  pub duplicate : Bool

-- How a commit ends: accepted, or refused for a row that stands in the database after the rollback.
pub data Commit : Type 0 where
  accepted : Commit
  conflicting : Database → Commit

abbrev pub is_critical : SafetyAlertSeverity → Bool
is_critical critical = true
is_critical warning = false

abbrev pub is_critico : Level → Bool
is_critico critico = true
is_critico aviso = false

-- `session.get(SafetyAlertIngestion, event_id)`
unfoldable pub get_ingestion : Uuid → List SafetyAlertIngestion → Option SafetyAlertIngestion
get_ingestion event_id [] = none
get_ingestion event_id (i ∷ is) =
    if i.event_id == event_id then some i else get_ingestion event_id is

-- `select(...).where(id == alert_id)`
unfoldable pub get_alert : ℕ → List PersistedAlert → Option PersistedAlert
get_alert alert_id [] = none
get_alert alert_id (a ∷ alerts) = if a.id == alert_id then some a else get_alert alert_id alerts

-- `update(...).where(id == alert_id, nivel != "critico").values(nivel="critico")`
unfoldable pub escalate_level : ℕ → List PersistedAlert → List PersistedAlert
escalate_level alert_id [] = []
escalate_level alert_id (a ∷ alerts) =
    (if (a.id == alert_id) && not (is_critico a.level) then record a { level = critico } else a)
    ∷ escalate_level alert_id alerts

-- the rows of that update
unfoldable pub escalated_rows : ℕ → List PersistedAlert → ℕ
escalated_rows alert_id [] = 0
escalated_rows alert_id (a ∷ alerts) =
    let rest = escalated_rows alert_id alerts in
    if (a.id == alert_id) && not (is_critico a.level) then suc rest else rest

-- `ingestion.payload_hash = payload_hash`
unfoldable pub set_payload_hash :
    Uuid → Text → List SafetyAlertIngestion → List SafetyAlertIngestion
set_payload_hash event_id hash [] = []
set_payload_hash event_id hash (i ∷ is) =
    (if i.event_id == event_id then record i { payload_hash = hash } else i)
    ∷ set_payload_hash event_id hash is

-- `_existing`
unfoldable pub existing :
    AlertEvent → SafetyAlertIngestion → Database → Result StoredAlert × Database
existing e i db =
    if not (text_eq i.payload_hash e.payload_hash || text_eq i.payload_hash e.legacy_payload_hash)
    then (err event_conflict_error, db)
    else (elim (get_alert i.alert_id db.alerts) [
      | none ↦ (err runtime_error, db)
      | some a ↦
          if is_critical e.severity && (escalated_rows i.alert_id db.alerts == 1)
          then (
            ok (record {
              event_id = i.event_id;
              alert_id = i.alert_id;
              occurrence_id = a.occurrence_id;
              duplicate = false;
            }),
            record db {
              alerts = escalate_level i.alert_id db.alerts;
              ingestions = set_payload_hash i.event_id e.payload_hash db.ingestions;
            },
          )
          else (
            ok (record {
              event_id = i.event_id;
              alert_id = i.alert_id;
              occurrence_id = a.occurrence_id;
              duplicate = true;
            }),
            db,
          )
    ])

-- the rows that `store` inserts
unfoldable pub inserted : AlertEvent → ℕ → ℕ → ℕ → Database → Database
inserted e now occurrence_id alert_id db = record {
  occurrences =
      db.occurrences
      ++ record {
        id = occurrence_id;
        camera_id = e.camera_id;
        type = e.violation_type;
        description = e.summary;
        detected_at = e.detected_at;
      }
        ∷ [];
  alerts =
      db.alerts
      ++ record {
        id = alert_id;
        occurrence_id = occurrence_id;
        level = if is_critical e.severity then critico else aviso;
        status = codes "nao_lido";
        observation = e.summary;
        created_at = e.detected_at;
        received_at = now;
      }
        ∷ [];
  ingestions =
      db.ingestions
      ++ record {
        event_id = e.event_id;
        payload_hash = e.payload_hash;
        alert_id = alert_id;
        work_session_id = e.work_session_id;
        operator_id = e.operator_id;
        operation_id = e.operation_id;
        risk_area_id = e.risk_area_id;
        violation_type = e.violation_type;
        subject_key = e.subject_key;
        received_at = now;
      }
        ∷ [];
}

-- `store`, given the clock, the two identifiers and the end of the commit
unfoldable pub store : AlertEvent → ℕ → ℕ → ℕ → Commit → Database → Result StoredAlert × Database
store e now occurrence_id alert_id commit db = elim (get_ingestion e.event_id db.ingestions) [
  | some i ↦ existing e i db
  | none ↦ elim commit [
    | accepted ↦ (
      ok (record {
        event_id = e.event_id;
        alert_id = alert_id;
        occurrence_id = occurrence_id;
        duplicate = false;
      }),
      inserted e now occurrence_id alert_id db,
    )
    | conflicting raced ↦ elim (get_ingestion e.event_id raced.ingestions) [
      | none ↦ (err integrity_error, raced)
      | some i ↦ existing e i raced
    ]
  ]
]
