-- ===== src/Realtime/Aggregator/Defs.antt =====
-- 2identify_api/app/services/safety_state.py and 2identify_api/app/schemas/safety_state.py. The models
-- of pydantic are records, and their validators and field bounds the `..._init` functions. The
-- aggregator owns the broker here: a call that it makes changes the one that it holds. The regular
-- expression of an identifier is the test of its characters. A session identifier is the text of its
-- UUID, and the key of a source the operator's number before it.
use identify.Base.{
  ℕ, ◌+◌, ◌*◌, ◌==◌, Bool, true, false, not, ◌&&◌, ◌||◌, Option, none, some, List, [], ◌∷◌, ◌++◌,
  map, length, any, all, keep, ltb, leb, if◌then◌else◌, opt_all, is_empty, Text, text_lt, Str,
  normalize, DateTime, as_utc,
}
use identify.Base.Result.{Result, ok, err, value_error, ◌>>=◌, ◌>>◌, raise_if, or_raise}
use identify.Base.Dict.{Dict, insert, remove}
use identify.Domain.Operation.{mem_text}
use identify.Realtime.Broker.Defs.{Broker, publish, send_to}

pub data SafetyConditionLevel : Type 0 where
  medium critical : SafetyConditionLevel

pub data SafetyConditionReason : Type 0 where
  ppe_missing ergonomic_risk person_in_risk_area : SafetyConditionReason

pub data HardwareSafetyState : Type 0 where
  green yellow red : HardwareSafetyState

-- `SafetyConditionSnapshot`; the instant is in UTC, as its validator leaves it
pub record SafetyConditionSnapshot : Type 0 where
  pub condition_id : Text
  pub reason : SafetyConditionReason
  pub level : SafetyConditionLevel
  pub first_observed_at : ℕ

-- a character of `[a-z0-9:_-]`
unfoldable pub in_identifier : ℕ → Bool
in_identifier c =
    (leb 97 c && leb c 122) || (leb 48 c && leb c 57) || (c == 58) || (c == 95) || (c == 45)

-- the bounds and the validators of `SafetyConditionSnapshot`
unfoldable pub condition_init : Str → SafetyConditionSnapshot → Result SafetyConditionSnapshot
condition_init py c = do
  raise_if (is_empty c.condition_id || ltb 200 (length c.condition_id)) value_error
  let condition_id = normalize py c.condition_id
  raise_if (is_empty condition_id || not (all in_identifier condition_id)) value_error
  ok (record c { condition_id = condition_id })

pub record OperatorSafetyStateSnapshot : Type 0 where
  pub work_session_id : Text
  pub operation_id : ℕ
  pub camera_id : Option ℕ
  pub observed_at : ℕ
  pub conditions : List SafetyConditionSnapshot

unfoldable pub unique_ids : List SafetyConditionSnapshot → Bool
unique_ids [] = true
unique_ids (c ∷ cs) = not (mem_text c.condition_id (map (λ d. d.condition_id) cs)) && unique_ids cs

-- the bounds and `validate_snapshot` of `OperatorSafetyStateSnapshot`; five minutes in microseconds
unfoldable pub snapshot_init : OperatorSafetyStateSnapshot → Result OperatorSafetyStateSnapshot
snapshot_init s = do
  raise_if (leb s.operation_id 0) value_error
  raise_if (not (opt_all (λ c. ltb 0 c) s.camera_id)) value_error
  raise_if (ltb 100 (length s.conditions)) value_error
  raise_if (not (unique_ids s.conditions)) value_error
  raise_if (any (λ c. ltb (s.observed_at + 5 * 60 * 1000000) c.first_observed_at) s.conditions)
      value_error
  ok s

pub record SafetyStateMessage : Type 0 where
  pub state : HardwareSafetyState
  pub reason : Option SafetyConditionReason
  pub active_conditions : ℕ
  pub updated_at : ℕ

abbrev pub is_none : Option SafetyConditionReason → Bool
is_none none = true
is_none (some r) = false

-- `validate_state_reason`
abbrev pub state_reason_matches : SafetyStateMessage → Bool
state_reason_matches m = elim m.state [
  | green ↦ is_none m.reason && (m.active_conditions == 0)
  | yellow ↦ not (is_none m.reason || (m.active_conditions == 0))
  | red ↦ not (is_none m.reason || (m.active_conditions == 0))
]

-- the bound and the validators of `SafetyStateMessage`, whose instant its caller has made UTC
unfoldable pub message_init : SafetyStateMessage → Result SafetyStateMessage
message_init m = do
  raise_if (ltb 10000 m.active_conditions) value_error
  raise_if (not (state_reason_matches m)) value_error
  ok m

unfoldable pub safe_state_message : ℕ → Result SafetyStateMessage
safe_state_message at =
    message_init (record { state = green; reason = none; active_conditions = 0; updated_at = at })

-- `_LEVEL_RANK`
abbrev pub level_rank : SafetyConditionLevel → ℕ
level_rank medium = 1
level_rank critical = 2

-- `_STATE_FOR_LEVEL`
abbrev pub state_for_level : SafetyConditionLevel → HardwareSafetyState
state_for_level medium = yellow
state_for_level critical = red

-- `_REASON_PRIORITY`
abbrev pub reason_priority : SafetyConditionReason → ℕ
reason_priority ergonomic_risk = 1
reason_priority ppe_missing = 2
reason_priority person_in_risk_area = 3

-- `max` of a first element and the rest: the first of the greatest
abbrev pub max_from {ℓ} : {A : Type ℓ} → (A → A → Bool) → A → List A → A
max_from lt x [] = x
max_from lt x (y ∷ ys) = max_from lt (if lt x y then y else x) ys

abbrev pub max_by {ℓ} : {A : Type ℓ} → (A → A → Bool) → List A → Option A
max_by lt [] = none
max_by lt (x ∷ xs) = some (max_from lt x xs)

abbrev pub level_lt : SafetyConditionLevel → SafetyConditionLevel → Bool
level_lt a b = ltb (level_rank a) (level_rank b)

-- the order of the tuples `(_REASON_PRIORITY[item.reason], item.condition_id)`
abbrev pub leading_lt : SafetyConditionSnapshot → SafetyConditionSnapshot → Bool
leading_lt a b =
    ltb (reason_priority a.reason) (reason_priority b.reason)
    || ((reason_priority a.reason == reason_priority b.reason)
        && text_lt a.condition_id b.condition_id)

abbrev pub same_level : SafetyConditionLevel → SafetyConditionLevel → Bool
same_level a b = level_rank a == level_rank b

-- the conditions of all sources, source after source
abbrev pub all_conditions : Dict (List SafetyConditionSnapshot) → List SafetyConditionSnapshot
all_conditions [] = []
all_conditions ((k, cs) ∷ sources) = cs ++ all_conditions sources

-- `_calculate_message`, given what the clock returns
unfoldable pub calculate_message :
    DateTime → List SafetyConditionSnapshot → Result SafetyStateMessage
calculate_message clock conditions = do
  now ← or_raise (as_utc clock) value_error
  (if leb (length conditions) 0 then safe_state_message now else (do
    highest_level ← or_raise (max_by level_lt (map (λ c. c.level) conditions)) value_error
    leading ←
        or_raise (max_by leading_lt (keep (λ c. same_level c.level highest_level) conditions))
          value_error
    message_init (record {
      state = state_for_level highest_level;
      reason = some leading.reason;
      active_conditions = length conditions;
      updated_at = now;
    })))

pub record SafetyStateUpdateResult : Type 0 where
  pub message : SafetyStateMessage
  pub published : Bool

pub record SafetyStateAggregator : Type 0 where
  pub sources : Dict (List SafetyConditionSnapshot)
  pub current : Option SafetyStateMessage
  pub broker : Broker SafetyStateMessage

abbrev pub state_code : HardwareSafetyState → ℕ
state_code green = 0
state_code yellow = 1
state_code red = 2

abbrev pub same_reason : Option SafetyConditionReason → Option SafetyConditionReason → Bool
same_reason none none = true
same_reason (some a) (some b) = reason_priority a == reason_priority b
same_reason _ _ = false

-- `_same_effective_state`
unfoldable pub same_effective_state : SafetyStateMessage → SafetyStateMessage → Bool
same_effective_state first second =
    (state_code first.state == state_code second.state)
    && same_reason first.reason second.reason
    && (first.active_conditions == second.active_conditions)

-- `__init__`
unfoldable pub aggregator_init : Broker SafetyStateMessage → SafetyStateAggregator
aggregator_init broker = record { sources = []; current = none; broker = broker }

-- `send_current`
unfoldable pub send_current : Text → SafetyStateAggregator → Bool × SafetyStateAggregator
send_current subscription_id a = elim a.current [
  | none ↦ (true, a)
  | some m ↦
      let (sent, broker) = send_to subscription_id m a.broker in
      (sent, record a { broker = broker })
]

abbrev pub source_key : ℕ → Text → Text
source_key operator_id work_session_id = operator_id ∷ work_session_id

-- the sources after a snapshot, in `update`
unfoldable pub update_sources :
    ℕ
    → OperatorSafetyStateSnapshot
    → Dict (List SafetyConditionSnapshot)
    → Dict (List SafetyConditionSnapshot)
update_sources operator_id s sources = elim s.conditions [
  | [] ↦ remove (source_key operator_id s.work_session_id) sources
  | c ∷ cs ↦ insert (source_key operator_id s.work_session_id) (c ∷ cs) sources
]

-- `self._current is not None and _same_effective_state(candidate, self._current)`, with the current
abbrev pub unchanged : SafetyStateMessage → Option SafetyStateMessage → Option SafetyStateMessage
unchanged candidate none = none
unchanged candidate (some m) = if same_effective_state candidate m then some m else none

-- the end of `update`: keep the current message, or take and publish the candidate
unfoldable pub update_current :
    SafetyStateMessage → SafetyStateAggregator → SafetyStateUpdateResult × SafetyStateAggregator
update_current candidate a = elim (unchanged candidate a.current) [
  | some m ↦ (record { message = m; published = false }, a)
  | none ↦ (
    record { message = candidate; published = true },
    record a { current = some candidate; broker = (publish candidate a.broker).1 },
  )
]

-- `update`, given what the clock returns: the result, and the aggregator it leaves, also when it raises
unfoldable pub update :
    DateTime
    → ℕ
    → OperatorSafetyStateSnapshot
    → SafetyStateAggregator
    → Result SafetyStateUpdateResult × SafetyStateAggregator
update clock operator_id s a =
    if leb operator_id 0
    then (err value_error, a)
    else (let sources = update_sources operator_id s a.sources in
        let merged = record a { sources = sources } in
        elim (calculate_message clock (all_conditions sources)) [
          | err e ↦ (err e, merged)
          | ok candidate ↦ let (r, after) = update_current candidate merged in (ok r, after)
        ])
