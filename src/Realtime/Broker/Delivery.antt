-- ===== src/Realtime/Broker/Delivery.antt =====
-- The delivery of one event by the broker of 2identify_api/app/realtime/broker.py.
use identify.Base.{
  ℕ, suc, ◌+◌, ◌-◌, ◌≡◌, refl, ap, true, false, none, some, List, [], ◌∷◌, ◌++◌, map, arith, length,
  leb, if◌then◌else◌, Bool-cases, Option-cases, inl, inr, Text, text_eq, text_eq_iff, text_eq_refl,
}
use identify.Base.Dict.{Dict, lookup, Distinct, contains}
use identify.Realtime.Broker.Defs.{Subscriber, Broker, put_nowait, send_to_table, send_all, publish}

module _ {M : Type 0} (capacity : ℕ) (event : M) where
  -- The table after an event to everyone, in one pass: who has room gets the event at the end of the
  -- queue, who has none is dropped.
  abbrev pub delivered : Dict (Subscriber M) → Dict (Subscriber M)
  delivered [] = []
  delivered ((i, s) ∷ d) = elim (put_nowait capacity event s) [
    | none ↦ delivered d
    | some t ↦ (i, t) ∷ delivered d
  ]

  -- Who has room, counted.
  abbrev pub with_room : Dict (Subscriber M) → ℕ
  with_room [] = 0
  with_room ((i, s) ∷ d) = (if leb capacity (length s.queue) then 0 else 1) + with_room d

  send_to_table-full :
      (i : Text) (s : Subscriber M) (d : Dict (Subscriber M))
      → leb capacity (length s.queue) ≡ true
      → send_to_table capacity i event ((i, s) ∷ d) ≡ (false, d)
  unfolding send_to_table
  send_to_table-full i s d full = ground (arith, text_eq_refl i)

  send_to_table-room :
      (i : Text) (s : Subscriber M) (d : Dict (Subscriber M))
      → leb capacity (length s.queue) ≡ false
      → send_to_table capacity i event ((i, s) ∷ d)
        ≡ (true, (i, record s { queue = s.queue ++ event ∷ [] }) ∷ d)
  unfolding send_to_table
  send_to_table-room i s d room = ground (arith, text_eq_refl i)

  -- A send to another subscriber passes the first entry by.
  send_to_table-skip :
      (i j : Text) (u : Subscriber M) (d : Dict (Subscriber M))
      → text_eq i j ≡ false
      → send_to_table capacity i event ((j, u) ∷ d)
        ≡ ((send_to_table capacity i event d).0, (j, u) ∷ (send_to_table capacity i event d).1)
  unfolding send_to_table
  send_to_table-skip i j u d ne = elim (Option-cases (lookup i d)) [
    | inl absent ↦ ground arith
    | inr (s, there) ↦ elim (Option-cases (put_nowait capacity event s)) [
      | inl full ↦ ground arith
      | inr (t, room) ↦ ground arith
    ]
  ]

  ids_of : Dict (Subscriber M) → List Text
  ids_of d = map (λ e. e.0) d

  abbrev NoneIs : Text → List Text → Type 0
  NoneIs j [] = Unit
  NoneIs j (i ∷ ids) = (text_eq i j ≡ false) × NoneIs j ids

  send_all-skip :
      (ids : List Text) (j : Text) (u : Subscriber M) (d : Dict (Subscriber M))
      → NoneIs j ids
      → send_all capacity event ids ((j, u) ∷ d)
        ≡ ((send_all capacity event ids d).0, (j, u) ∷ (send_all capacity event ids d).1)
  unfolding send_all
  send_all-skip [] j u d h = refl
  send_all-skip (i ∷ ids) j u d h =
      rw (send_to_table-skip i j u d h.0)
        (ground (arith, send_all-skip ids j u (send_to_table capacity i event d).1 h.1))

  contains→NoneIs :
      (j : Text) (d : Dict (Subscriber M)) → contains j d ≡ false → NoneIs j (map (λ e. e.0) d)
  contains→NoneIs j [] h = tt
  contains→NoneIs j ((i, s) ∷ d) h =
      (ground (arith, text_eq_iff j i, text_eq_iff i j), contains→NoneIs j d (ground arith))

  send_all_lem :
      (d : Dict (Subscriber M))
      → Distinct d
      → send_all capacity event (map (λ e. e.0) d) d ≡ (with_room d, delivered d)
  unfolding send_all
  send_all_lem [] h = refl
  send_all_lem ((i, s) ∷ d) h = elim (Bool-cases (leb capacity (length s.queue))) [
    | inl full ↦ rw (send_to_table-full i s d full) (ground (arith, send_all_lem d h.1))
    | inr room ↦ rw (send_to_table-room i s d room) (
        ground (
          arith,
          send_all-skip (map (λ e. e.0) d) i (record s { queue = s.queue ++ event ∷ [] }) d
              (contains→NoneIs i d h.0),
          send_all_lem d h.1,
        ))
  ]

  with_room_lem : (d : Dict (Subscriber M)) → with_room d ≡ length (delivered d)
  with_room_lem [] = refl
  with_room_lem ((i, s) ∷ d) = elim (Bool-cases (leb capacity (length s.queue))) [
    | inl full ↦ ground (arith, with_room_lem d)
    | inr room ↦ ground (arith, with_room_lem d)
  ]

  length-ids : (d : Dict (Subscriber M)) → length (map (λ e. e.0) d) ≡ length d
  length-ids [] = refl
  length-ids ((i, s) ∷ d) = ap suc (length-ids d)

-- Publishing to subscribers with distinct identifiers puts the event at the end of the queue of
-- each that has room and drops each that has none, in the order of the table, and reports how many
-- there were, are left and were dropped.
pub publish_lem :
    {M : Type 0} (event : M) (b : Broker M)
    → Distinct b.subscribers
    → publish event b ≡ (
      record {
        attempted = length b.subscribers;
        enqueued = length (delivered b.queue_capacity event b.subscribers);
        disconnected =
            length b.subscribers - length (delivered b.queue_capacity event b.subscribers);
      },
      record b { subscribers = delivered b.queue_capacity event b.subscribers },
    )
unfolding publish
publish_lem event b h = ground (
  arith,
  send_all_lem b.queue_capacity event b.subscribers h,
  with_room_lem b.queue_capacity event b.subscribers,
  length-ids b.queue_capacity event b.subscribers,
)
