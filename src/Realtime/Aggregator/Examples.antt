-- ===== src/Realtime/Aggregator/Examples.antt =====
-- The aggregator of 2identify_api/app/services/safety_state.py on an operator with two conditions.
use identify.Base.{
  ◌≤◌, ◌≡◌, ◌⊎◌, true, false, none, some, [], ◌∷◌, arith, length, codes, text_eq, aware,
  if◌then◌else◌,
}
use identify.Base.Dict.{lookup, Distinct}
use identify.Base.Result.{ok}
use identify.Realtime.Broker.Defs.{Broker, publish}
use identify.Realtime.Aggregator.Defs.{
  medium, critical, ppe_missing, ergonomic_risk, SafetyConditionSnapshot,
  OperatorSafetyStateSnapshot, SafetyStateMessage, SafetyStateUpdateResult, SafetyStateAggregator,
  all_conditions, calculate_message, update_sources, source_key, update,
}
use identify.Realtime.Aggregator.Summary.{summary, calculate_message_lem}
use identify.Realtime.Aggregator.Updates.{Summarises, IsNews, stored, update_lem}

abbrev posture : SafetyConditionSnapshot
posture = record {
  condition_id = codes "a";
  reason = ergonomic_risk;
  level = medium;
  first_observed_at = 10;
}

abbrev no_helmet : SafetyConditionSnapshot
no_helmet = record {
  condition_id = codes "b";
  reason = ppe_missing;
  level = critical;
  first_observed_at = 20;
}

calculate_message_example :
    calculate_message (aware 30) (posture ∷ no_helmet ∷ [])
    ≡ ok (summary 30 (posture ∷ no_helmet ∷ []))
calculate_message_example = calculate_message_lem 30 (posture ∷ no_helmet ∷ []) (omega arith)

abbrev reported : OperatorSafetyStateSnapshot
reported = record {
  work_session_id = codes "s";
  operation_id = 3;
  camera_id = none;
  observed_at = 25;
  conditions = posture ∷ no_helmet ∷ [];
}

abbrev broker : Broker SafetyStateMessage
broker = record {
  queue_capacity = 1;
  max_connections = 3;
  max_connections_per_owner = 2;
  subscribers = (codes "a", record { sink = 1; queue = []; owner_id = some 5 }) ∷ [];
  is_closed = false;
}

abbrev aggregator : SafetyStateAggregator
aggregator = record { sources = []; current = none; broker = broker }

few_conditions : length (all_conditions (update_sources 2 reported aggregator.sources)) ≤ 10000
unfolding update_sources text_eq
few_conditions = omega arith

update_example :
    (r : SafetyStateUpdateResult) × (after : SafetyStateAggregator) × (update
        (aware 30)
        2
        reported
        aggregator
      ≡ (ok r, after))
    × (lookup (source_key 2 (codes "s")) after.sources ≡ (
        if text_eq (source_key 2 (codes "s")) (source_key 2 (codes "s"))
        then stored (posture ∷ no_helmet ∷ [])
        else none))
    × Distinct after.sources
    × (after.current ≡ some r.message)
    × Summarises r.message (all_conditions after.sources)
    × ((r.published ≡ false)
          × (aggregator.current ≡ some r.message)
          × (after.broker ≡ aggregator.broker)
        ⊎ (r.published ≡ true)
          × (r.message.updated_at ≡ 30)
          × IsNews r.message aggregator.current
          × (after.broker ≡ (publish r.message aggregator.broker).1))
update_example =
    update_lem 30 2 reported aggregator (source_key 2 (codes "s")) (omega arith) tt few_conditions
