-- ===== src/Realtime/Broker/Examples.antt =====
-- A broker of 2identify_api/app/realtime/broker.py with two subscribers and queues of one message.
use identify.Base.{ℕ, ◌-◌, ◌≡◌, refl, false, none, some, [], ◌∷◌, length, codes, text_eq}
use identify.Base.Dict.{Distinct}
use identify.Base.Result.{ok}
use identify.Realtime.Broker.Defs.{Broker, broker_init, publish}
use identify.Realtime.Broker.Delivery.{delivered, publish_lem}
use identify.Realtime.Broker.Bounds.{
  subscribing, sending, publishing, taking, failing, closing, run,
}
use identify.Realtime.Broker.Runs.{IsSound, broker_init-run-IsSound}

abbrev pair : Broker ℕ
pair = record {
  queue_capacity = 1;
  max_connections = 3;
  max_connections_per_owner = 2;
  subscribers =
      (codes "a", record { sink = 1; queue = []; owner_id = some 5 })
      ∷ (codes "b", record { sink = 2; queue = 8 ∷ []; owner_id = none })
      ∷ [];
  is_closed = false;
}

pair-Distinct : Distinct pair.subscribers
unfolding text_eq
pair-Distinct = (refl, (refl, tt))

publish_example : publish 9 pair ≡ (
  record {
    attempted = 2;
    enqueued = length (delivered 1 9 pair.subscribers);
    disconnected = 2 - length (delivered 1 9 pair.subscribers);
  },
  record pair { subscribers = delivered 1 9 pair.subscribers },
)
publish_example = publish_lem 9 pair pair-Distinct

abbrev empty_broker : Broker ℕ
empty_broker = record pair { subscribers = [] }

built : broker_init 1 3 2 1000 ≡ ok empty_broker
unfolding broker_init
built = refl

broker_init-run-IsSound_example : IsSound 1 3 2 (
    run
      (subscribing (codes "a") 1 (some 5)
        ∷ sending (codes "a") 8
        ∷ publishing 9
        ∷ taking (codes "a")
        ∷ failing (codes "a") 1
        ∷ closing
        ∷ [])
      empty_broker)
broker_init-run-IsSound_example =
    broker_init-run-IsSound 1 3 2 1000 empty_broker
      (subscribing (codes "a") 1 (some 5)
        ∷ sending (codes "a") 8
        ∷ publishing 9
        ∷ taking (codes "a")
        ∷ failing (codes "a") 1
        ∷ closing
        ∷ [])
      built
