-- ===== src/Realtime/Broker/Bounds.antt =====
-- The limits of the broker of 2identify_api/app/realtime/broker.py, for any sequence of its steps.
use identify.Base.{
  ℕ, ◌≤◌, ◌≡◌, refl, ap, true, Option, some, List, [], ◌∷◌, ◌++◌, arith, All, length, length-append,
  leb, Bool-cases, Option-cases, inl, inr, Text,
}
use identify.Base.Dict.{
  Dict, lookup, insert, remove, Distinct, count_values, insert-Distinct, remove-Distinct,
  All-insert, All-remove, count_values-remove, count_values-update,
}
use identify.Base.Result.{ok, err}
use identify.Realtime.Broker.Defs.{
  Subscriber, Broker, same_owner, subscribe, disconnect, send_to_table, send_to, send_all, publish,
  close, writer_take, remove_failed_writer,
}

-- One step of the broker: a call, or what a writer task does under the lock.
pub data Event (M : Type 0) : Type 0 where
  subscribing : Text → ℕ → Option ℕ → Event M
  disconnecting : Text → Event M
  sending : Text → M → Event M
  publishing : M → Event M
  closing : Event M
  taking : Text → Event M
  failing : Text → ℕ → Event M

module _ {M : Type 0} where
  -- a refused subscription leaves the broker as it is
  abbrev pub step : Event M → Broker M → Broker M
  step (subscribing i sink owner) b = elim (subscribe i sink owner b) [ ok b' ↦ b' | err e ↦ b ]
  step (disconnecting i) b = disconnect i b
  step (sending i m) b = (send_to i m b).1
  step (publishing m) b = (publish m b).1
  step closing b = close b
  step (taking i) b = writer_take i b
  step (failing i sink) b = remove_failed_writer i sink b

  abbrev pub run : List (Event M) → Broker M → Broker M
  run [] b = b
  run (e ∷ es) b = run es (step e b)

  abbrev pub Fits : ℕ → Subscriber M → Type 0
  Fits capacity s = length s.queue ≤ capacity

  -- The table keeps its limits: the identifiers differ, no queue is over its capacity, there are not
  -- more subscribers than connections allowed, and no owner has more than its share.
  pub record IsBounded (capacity most share : ℕ) (d : Dict (Subscriber M)) : Type 0 where
    pub distinct : Distinct d
    pub queues : All (λ e. Fits capacity e.1) d
    pub connections : count_values (λ s. true) d ≤ most
    pub owners : (o : ℕ) → count_values (λ s. same_owner s.owner_id (some o)) d ≤ share

  module _ (capacity most share : ℕ) where
    pub remove-IsBounded :
        (i : Text) (d : Dict (Subscriber M))
        → IsBounded capacity most share d
        → IsBounded capacity most share (remove i d)
    remove-IsBounded i d b = record {
      distinct = remove-Distinct i d b.distinct;
      queues = All-remove (Fits capacity) i d b.queues;
      connections = omega (arith, count_values-remove (λ s. true) i d, b.connections);
      owners = λ o.
          omega (arith, count_values-remove (λ s. same_owner s.owner_id (some o)) i d, b.owners o);
    }

    -- A write to a subscriber that is there, which keeps its owner.
    pub update-IsBounded :
        (i : Text) (s t : Subscriber M) (d : Dict (Subscriber M))
        → lookup i d ≡ some s
        → t.owner_id ≡ s.owner_id
        → length t.queue ≤ capacity
        → IsBounded capacity most share d
        → IsBounded capacity most share (insert i t d)
    update-IsBounded i s t d there same fits b = record {
      distinct = insert-Distinct i t d b.distinct;
      queues = All-insert (Fits capacity) i t d b.queues fits;
      connections =
          omega (arith, count_values-update (λ s. true) i s t d there refl, b.connections);
      owners = λ o. omega (
        arith,
        count_values-update (λ s. same_owner s.owner_id (some o)) i s t d there
            (ap (λ w. same_owner w (some o)) same),
        b.owners o,
      );
    }

    pub send_to_table-IsBounded :
        (i : Text) (m : M) (d : Dict (Subscriber M))
        → IsBounded capacity most share d
        → IsBounded capacity most share (send_to_table capacity i m d).1
    unfolding send_to_table
    send_to_table-IsBounded i m d b = elim (Option-cases (lookup i d)) [
      | inl absent ↦ rw (send_to_table, absent) b
      | inr (s, there) ↦ elim (Bool-cases (leb capacity (length s.queue))) [
        | inl full ↦ rw (send_to_table, there, full) (remove-IsBounded i d b)
        | inr room ↦
            rw (send_to_table, there, room)
              (update-IsBounded i s (record s { queue = s.queue ++ m ∷ [] }) d there refl
                (ground (arith, length-append s.queue (m ∷ []))) b)
      ]
    ]

    pub send_all-IsBounded :
        (m : M) (ids : List Text) (d : Dict (Subscriber M))
        → IsBounded capacity most share d
        → IsBounded capacity most share (send_all capacity m ids d).1
    unfolding send_all
    send_all-IsBounded m [] d b = b
    send_all-IsBounded m (i ∷ ids) d b =
        send_all-IsBounded m ids (send_to_table capacity i m d).1 (send_to_table-IsBounded i m d b)
