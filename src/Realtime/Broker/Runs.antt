-- ===== src/Realtime/Broker/Runs.antt =====
-- Sequences of steps of the broker of 2identify_api/app/realtime/broker.py.
use identify.Base.{
  ℕ, ◌≤◌, ◌<◌, ◌≡◌, refl, sym, ◌==◌, ==_iff, true, false, Option, none, some, List, [], ◌∷◌, map,
  arith, length, Bool-cases, Option-cases, inl, inr, Text,
}
use identify.Base.Dict.{
  Dict, lookup, insert, remove, count_values, insert-Distinct, All-insert, count_values-insert,
  All-lookup,
}
use identify.Base.Result.{Result-cases, ok}
use mathlib.Core.Path.{subst}
use identify.Realtime.Broker.Defs.{
  Subscriber, Broker, same_owner, tail, broker_init, subscribe, disconnect, send_to_table, send_to,
  send_all, publish, close, writer_take, remove_failed_writer, owner_connections,
}
use identify.Realtime.Broker.Bounds.{
  Event, subscribing, disconnecting, sending, publishing, closing, taking, failing, step, run, Fits,
  IsBounded, remove-IsBounded, update-IsBounded, send_to_table-IsBounded, send_all-IsBounded,
}

module _ {M : Type 0} (capacity most share : ℕ) where
  -- The limits are those of the constructor, the table keeps them, and a closed broker has nobody.
  pub record IsSound (b : Broker M) : Type 0 where
    pub queue_capacity : b.queue_capacity ≡ capacity
    pub max_connections : b.max_connections ≡ most
    pub max_connections_per_owner : b.max_connections_per_owner ≡ share
    pub bounded : IsBounded capacity most share b.subscribers
    pub drained : b.is_closed ≡ true → b.subscribers ≡ []

  count_all : (d : Dict (Subscriber M)) → count_values (λ s. true) d ≡ length d
  count_all [] = refl
  count_all ((i, s) ∷ d) = omega (arith, count_all d)

  insert-owners :
      (i : Text) (sink : ℕ) (owner : Option ℕ) (d : Dict (Subscriber M))
      → ((p : ℕ) → owner ≡ some p → count_values (λ s. same_owner s.owner_id (some p)) d < share)
      → ((o : ℕ) → count_values (λ s. same_owner s.owner_id (some o)) d ≤ share)
      → (o : ℕ)
      → count_values
          (λ s. same_owner s.owner_id (some o))
          (insert i (record { sink = sink; queue = []; owner_id = owner }) d)
        ≤ share
  insert-owners i sink none d room h o = omega (
    arith,
    count_values-insert (λ s. same_owner s.owner_id (some o)) i
        (record { sink = sink; queue = []; owner_id = none }) d,
    h o,
  )
  insert-owners i sink (some p) d room h o = elim (Bool-cases (p == o)) [
    | inl same ↦ ground (
      arith,
      (==_iff p o).0 same,
      count_values-insert (λ s. same_owner s.owner_id (some o)) i
          (record { sink = sink; queue = []; owner_id = some p }) d,
      room p refl,
    )
    | inr other ↦ ground (
      arith,
      count_values-insert (λ s. same_owner s.owner_id (some o)) i
          (record { sink = sink; queue = []; owner_id = some p }) d,
      h o,
    )
  ]

  -- What a subscription that is not refused has checked, and what it writes.
  subscribe-ok :
      (i : Text) (sink : ℕ) (owner : Option ℕ) (b b' : Broker M)
      → subscribe i sink owner b ≡ ok b'
      → (b.is_closed ≡ false)
        × (length b.subscribers < b.max_connections)
        × ((p : ℕ) → owner ≡ some p → owner_connections (some p) b < b.max_connections_per_owner)
        × (b' ≡ record b {
          subscribers =
              insert i (record { sink = sink; queue = []; owner_id = owner }) b.subscribers;
        })
  unfolding subscribe
  subscribe-ok i sink none b b' e =
      (ground arith, ground arith, λ p q. absurd (ground arith), ground arith)
  subscribe-ok i sink (some o) b b' e = (
    ground arith,
    ground arith,
    λ p q.
        let same : o ≡ p = ground arith in
        subst (λ w. owner_connections (some w) b < b.max_connections_per_owner) same (ground arith),
    ground arith,
  )

  -- The same limits over another table of a broker that is not closed.
  with_table :
      (b : Broker M) (d : Dict (Subscriber M))
      → IsSound b
      → IsBounded capacity most share d
      → (b.is_closed ≡ true → d ≡ [])
      → IsSound (record b { subscribers = d })
  with_table b d h k z = record {
    queue_capacity = h.queue_capacity;
    max_connections = h.max_connections;
    max_connections_per_owner = h.max_connections_per_owner;
    bounded = k;
    drained = z;
  }

  subscribe-IsSound :
      (i : Text) (sink : ℕ) (owner : Option ℕ) (b : Broker M)
      → IsSound b
      → IsSound (step (subscribing i sink owner) b)
  subscribe-IsSound i sink owner b h = elim (Result-cases (subscribe i sink owner b)) [
    | inl (x, refused) ↦ rw (step, refused) h
    | inr (b', e) ↦
        let (opened, room, own_room, written) = subscribe-ok i sink owner b b' e in
        let entry : Subscriber M = record { sink = sink; queue = []; owner_id = owner } in
        rw (step, e, written)
          (with_table b (insert i entry b.subscribers) h
            (record {
              distinct = insert-Distinct i entry b.subscribers h.bounded.distinct;
              queues =
                  All-insert (Fits capacity) i entry b.subscribers h.bounded.queues (omega arith);
              connections = omega (
                arith,
                count_values-insert (λ s. true) i entry b.subscribers,
                count_all b.subscribers,
                room,
                h.max_connections,
              );
              owners =
                  insert-owners i sink owner b.subscribers
                    (λ p q.
                      let mine : count_values (λ s. same_owner s.owner_id (some p)) b.subscribers
                          < b.max_connections_per_owner =
                        own_room p q in
                      omega (arith, mine, h.max_connections_per_owner))
                    h.bounded.owners;
            })
            (λ c. absurd (ground arith)))
  ]

  empty_IsBounded : IsBounded {M = M} capacity most share []
  empty_IsBounded = record {
    distinct = tt;
    queues = tt;
    connections = omega arith;
    owners = λ o. omega arith;
  }

  length-tail : (ms : List M) → length (tail ms) ≤ length ms
  length-tail [] = omega arith
  length-tail (m ∷ ms) = omega arith

  nobody :
      (i : Text) (s : Subscriber M) (b : Broker M)
      → b.subscribers ≡ []
      → lookup i b.subscribers ≡ some s
      → ⊥
  nobody i s b none_left there =
      let gone : lookup i b.subscribers ≡ none = rw none_left refl in ground (arith, gone, there)

  send_to_table-empty :
      (n : ℕ) (i : Text) (m : M) (d : Dict (Subscriber M)) → d ≡ [] → (send_to_table n i m d).1 ≡ []
  unfolding send_to_table
  send_to_table-empty n i m d e = rw e refl

  send_all-empty :
      (n : ℕ) (m : M) (ids : List Text) (d : Dict (Subscriber M))
      → d ≡ []
      → (send_all n m ids d).1 ≡ []
  unfolding send_all
  send_all-empty n m [] d e = e
  send_all-empty n m (i ∷ ids) d e =
      send_all-empty n m ids (send_to_table n i m d).1 (send_to_table-empty n i m d e)

  step-IsSound : (e : Event M) (b : Broker M) → IsSound b → IsSound (step e b)
  unfolding disconnect send_to publish close writer_take remove_failed_writer
  step-IsSound (subscribing i sink owner) b h = subscribe-IsSound i sink owner b h
  step-IsSound (disconnecting i) b h =
      with_table b (remove i b.subscribers) h
        (remove-IsBounded capacity most share i b.subscribers h.bounded)
        (λ c. rw (h.drained c) refl)
  step-IsSound (sending i m) b h =
      with_table b (send_to_table b.queue_capacity i m b.subscribers).1 h
        (rw h.queue_capacity
          (send_to_table-IsBounded capacity most share i m b.subscribers h.bounded))
        (λ c. send_to_table-empty b.queue_capacity i m b.subscribers (h.drained c))
  step-IsSound (publishing m) b h =
      let ids = map (λ e. e.0) b.subscribers in
      with_table b (send_all b.queue_capacity m ids b.subscribers).1 h
        (rw h.queue_capacity (send_all-IsBounded capacity most share m ids b.subscribers h.bounded))
        (λ c. send_all-empty b.queue_capacity m ids b.subscribers (h.drained c))
  step-IsSound closing b h = elim (Bool-cases b.is_closed) [
    | inl closed ↦ let e : close b ≡ b = ground arith in subst IsSound (sym e) h
    | inr opened ↦
        rw (step, close, opened)
          (record {
            queue_capacity = h.queue_capacity;
            max_connections = h.max_connections;
            max_connections_per_owner = h.max_connections_per_owner;
            bounded = empty_IsBounded;
            drained = λ c. refl;
          })
  ]
  step-IsSound (taking i) b h = elim (Option-cases (lookup i b.subscribers)) [
    | inl absent ↦ rw (step, writer_take, absent) h
    | inr (s, there) ↦
        let t : Subscriber M = record s { queue = tail s.queue } in
        let fits : length s.queue ≤ capacity =
          All-lookup (Fits capacity) i b.subscribers h.bounded.queues there in
        rw (step, writer_take, there)
          (with_table b (insert i t b.subscribers) h
            (update-IsBounded capacity most share i s t b.subscribers there refl
              (omega (arith, length-tail s.queue, fits)) h.bounded)
            (λ c. absurd (nobody i s b (h.drained c) there)))
  ]
  step-IsSound (failing i sink) b h = elim (Option-cases (lookup i b.subscribers)) [
    | inl absent ↦ rw (step, remove_failed_writer, absent) h
    | inr (s, there) ↦ elim (Bool-cases (s.sink == sink)) [
      | inl same ↦
          rw (step, remove_failed_writer, there, same)
            (with_table b (remove i b.subscribers) h
              (remove-IsBounded capacity most share i b.subscribers h.bounded)
              (λ c. rw (h.drained c) refl))
      | inr other ↦ rw (step, remove_failed_writer, there, other) h
    ]
  ]

  run-IsSound : (es : List (Event M)) (b : Broker M) → IsSound b → IsSound (run es b)
  run-IsSound [] b h = h
  run-IsSound (e ∷ es) b h = run-IsSound es (step e b) (step-IsSound e b h)

-- After any steps of a new broker the limits are those of its construction, no identifier stands
-- twice, no queue exceeds its capacity, connections and those of each owner stay within their
-- limits, and a closed broker has no subscriber.
pub broker_init-run-IsSound :
    {M : Type 0} (capacity most share timeout : ℕ) (b : Broker M) (es : List (Event M))
    → broker_init capacity most share timeout ≡ ok b
    → IsSound capacity most share (run es b)
unfolding broker_init
broker_init-run-IsSound capacity most share timeout b es e =
    let fresh : b ≡ record {
      queue_capacity = capacity;
      max_connections = most;
      max_connections_per_owner = share;
      subscribers = [];
      is_closed = false;
    } =
      ground arith in
    run-IsSound capacity most share es b (
      subst (IsSound capacity most share) (sym fresh) (record {
        queue_capacity = refl;
        max_connections = refl;
        max_connections_per_owner = refl;
        bounded = empty_IsBounded capacity most share;
        drained = λ c. refl;
      }))
