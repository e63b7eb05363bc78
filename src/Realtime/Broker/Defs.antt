-- ===== src/Realtime/Broker/Defs.antt =====
-- The state of `InMemoryRealtimeEventBroker` and its operations. Each `async with self._lock` is one
-- step. A subscription identifier is the text of its UUID, a sink its identity, and a queue the list
-- of its messages, the oldest first. What the sinks and the writer tasks do outside the lock, and the
-- log, is not modelled, except that a writer takes a message and that it may fail.
use identify.Base.{
  ℕ, suc, ◌-◌, ◌==◌, Bool, true, false, not, ◌&&◌, Option, none, some, List, [], ◌∷◌, ◌++◌, map,
  length, ltb, leb, if◌then◌else◌, opt_all, Text, is_some,
}
use identify.Base.Result.{
  Result, ok, value_error, broker_closed_error, broker_capacity_error, ◌>>◌, raise_if,
}
use identify.Base.Dict.{Dict, lookup, insert, remove, count_values}

-- `DeliveryReport`
pub record DeliveryReport : Type 0 where
  pub attempted : ℕ
  pub enqueued : ℕ
  pub disconnected : ℕ

-- `_Subscriber`
pub record Subscriber (M : Type 0) : Type 0 where
  pub sink : ℕ
  pub queue : List M
  pub owner_id : Option ℕ

pub record Broker (M : Type 0) : Type 0 where
  pub queue_capacity : ℕ
  pub max_connections : ℕ
  pub max_connections_per_owner : ℕ
  pub subscribers : Dict (Subscriber M)
  pub is_closed : Bool

-- `first.owner_id == second.owner_id`
abbrev pub same_owner : Option ℕ → Option ℕ → Bool
same_owner none none = true
same_owner (some a) (some b) = a == b
same_owner _ _ = false

module _ {M : Type 0} where
  -- `__init__`; the timeout is counted in microseconds
  unfoldable pub broker_init : ℕ → ℕ → ℕ → ℕ → Result (Broker M)
  broker_init queue_capacity max_connections max_connections_per_owner sink_close_timeout = do
    raise_if (leb queue_capacity 0) value_error
    raise_if (leb max_connections 0) value_error
    raise_if (leb max_connections_per_owner 0) value_error
    raise_if (ltb max_connections max_connections_per_owner) value_error
    raise_if (leb sink_close_timeout 0) value_error
    ok (record {
      queue_capacity = queue_capacity;
      max_connections = max_connections;
      max_connections_per_owner = max_connections_per_owner;
      subscribers = [];
      is_closed = false;
    })

  -- the count of `subscribe`
  abbrev pub owner_connections : Option ℕ → Broker M → ℕ
  owner_connections owner_id b = count_values (λ s. same_owner s.owner_id owner_id) b.subscribers

  -- `subscribe`, given the identifier that `uuid4` returns
  unfoldable pub subscribe : Text → ℕ → Option ℕ → Broker M → Result (Broker M)
  subscribe subscription_id sink owner_id b = do
    raise_if (not (opt_all (λ o. ltb 0 o) owner_id)) value_error
    raise_if b.is_closed broker_closed_error
    raise_if (leb b.max_connections (length b.subscribers)) broker_capacity_error
    raise_if (is_some owner_id && leb b.max_connections_per_owner (owner_connections owner_id b))
        broker_capacity_error
    ok (record b {
      subscribers =
          insert subscription_id (record { sink = sink; queue = []; owner_id = owner_id })
            b.subscribers;
    })

  -- `disconnect`, which `unsubscribe` calls
  unfoldable pub disconnect : Text → Broker M → Broker M
  disconnect subscription_id b = record b { subscribers = remove subscription_id b.subscribers }

  -- `queue.put_nowait`, or that the queue is full
  abbrev pub put_nowait : ℕ → M → Subscriber M → Option (Subscriber M)
  put_nowait capacity event s =
      if leb capacity (length s.queue)
      then none
      else some (record s { queue = s.queue ++ event ∷ [] })

  -- `send_to` on the table of subscribers
  unfoldable pub send_to_table : ℕ → Text → M → Dict (Subscriber M) → Bool × Dict (Subscriber M)
  send_to_table capacity subscription_id event d = elim (lookup subscription_id d) [
    | none ↦ (false, d)
    | some s ↦ elim (put_nowait capacity event s) [
      | none ↦ (false, remove subscription_id d)
      | some t ↦ (true, insert subscription_id t d)
    ]
  ]

  -- `send_to`
  unfoldable pub send_to : Text → M → Broker M → Bool × Broker M
  send_to subscription_id event b =
      let (sent, subscribers) =
        send_to_table b.queue_capacity subscription_id event b.subscribers in
      (sent, record b { subscribers = subscribers })

  -- the sends that `publish` gathers, in their order
  unfoldable pub send_all : ℕ → M → List Text → Dict (Subscriber M) → ℕ × Dict (Subscriber M)
  send_all capacity event [] d = (0, d)
  send_all capacity event (i ∷ ids) d =
      let (sent, d') = send_to_table capacity i event d in
      let (enqueued, d'') = send_all capacity event ids d' in
      ((if sent then suc enqueued else enqueued), d'')

  -- `publish`
  unfoldable pub publish : M → Broker M → DeliveryReport × Broker M
  publish event b =
      let subscription_ids = map (λ e. e.0) b.subscribers in
      let (enqueued, subscribers) =
        send_all b.queue_capacity event subscription_ids b.subscribers in
      let attempted = length subscription_ids in
      (
        record { attempted = attempted; enqueued = enqueued; disconnected = attempted - enqueued },
        record b { subscribers = subscribers },
      )

  -- `close`
  unfoldable pub close : Broker M → Broker M
  close b = if b.is_closed then b else record b { is_closed = true; subscribers = [] }

  abbrev pub tail : List M → List M
  tail [] = []
  tail (m ∷ ms) = ms

  -- `await queue.get()` in `_writer_loop`
  unfoldable pub writer_take : Text → Broker M → Broker M
  writer_take subscription_id b = elim (lookup subscription_id b.subscribers) [
    | none ↦ b
    | some s ↦ record b {
      subscribers = insert subscription_id (record s { queue = tail s.queue }) b.subscribers;
    }
  ]

  -- `_remove_failed_writer`
  unfoldable pub remove_failed_writer : Text → ℕ → Broker M → Broker M
  remove_failed_writer subscription_id sink b = elim (lookup subscription_id b.subscribers) [
    | none ↦ b
    | some s ↦
        if not (s.sink == sink)
        then b
        else record b { subscribers = remove subscription_id b.subscribers }
  ]
