-- ===== src/Realtime/Aggregator/Updates.antt =====
-- What an update of the aggregator keeps and what it publishes:
-- 2identify_api/app/services/safety_state.py, `update`.
use identify.Base.{
  ℕ, ◌≤◌, ◌<◌, ◌≡◌, ◌⊎◌, refl, sym, ap, ◌==◌, true, false, Option, none, some, List, arith, length,
  Bool-cases, Option-cases, List-cases, inl, inr, aware, if◌then◌else◌, Text, text_eq, [], ◌∷◌,
}
use mathlib.Core.Path.{subst}
use identify.Base.Dict.{
  Dict, lookup, Distinct, lookup-insert, insert-Distinct, remove-Distinct, lookup-remove_if,
}
use identify.Base.Result.{ok}
use identify.Realtime.Broker.Defs.{publish}
use identify.Realtime.Aggregator.Defs.{
  SafetyConditionSnapshot, OperatorSafetyStateSnapshot, SafetyStateMessage, HardwareSafetyState,
  SafetyConditionReason, same_reason, state_code, same_effective_state, SafetyStateUpdateResult,
  SafetyStateAggregator, all_conditions, update_sources, source_key, unchanged, update_current,
  update,
}
use identify.Realtime.Aggregator.Summary.{
  summary_state, summary_reason, summary, calculate_message_lem,
}

-- The effective content of a message is the summary of some conditions.
pub record Summarises (m : SafetyStateMessage) (cs : List SafetyConditionSnapshot) : Type 0 where
  pub state : m.state ≡ summary_state cs
  pub reason : m.reason ≡ summary_reason cs
  pub count : m.active_conditions ≡ length cs

same_state-eq : (a b : HardwareSafetyState) → (state_code a == state_code b) ≡ true → a ≡ b
same_state-eq a b h = ground arith

same_reason-eq : (a b : Option SafetyConditionReason) → same_reason a b ≡ true → a ≡ b
same_reason-eq none none h = refl
same_reason-eq none (some b) h = ground arith
same_reason-eq (some a) none h = ground arith
same_reason-eq (some a) (some b) h = ground arith

-- Messages with the same effective state agree in all but the instant.
pub same_effective_state_lem :
    (m n : SafetyStateMessage)
    → same_effective_state m n ≡ true
    → (m.state ≡ n.state) × (m.reason ≡ n.reason) × (m.active_conditions ≡ n.active_conditions)
unfolding same_effective_state
same_effective_state_lem m n h = (
  same_state-eq m.state n.state (ground arith),
  same_reason-eq m.reason n.reason (ground arith),
  ground arith,
)

unchanged_lem :
    (candidate m : SafetyStateMessage) (o : Option SafetyStateMessage)
    → unchanged candidate o ≡ some m
    → (o ≡ some m) × (same_effective_state candidate m ≡ true)
unchanged_lem candidate m none h = absurd (ground arith)
unchanged_lem candidate m (some n) h = elim (Bool-cases (same_effective_state candidate n)) [
  | inl same ↦
      let e : n ≡ m = ground arith in
      (ap some e, subst (λ x. same_effective_state candidate x ≡ true) e same)
  | inr other ↦ absurd (ground arith)
]

-- the conditions that a source is stored with, or none for a source that reports none
abbrev pub stored : List SafetyConditionSnapshot → Option (List SafetyConditionSnapshot)
stored [] = none
stored (c ∷ cs) = some (c ∷ cs)

-- After a snapshot its source has the conditions reported, or is gone, and the others are as before.
lookup-update_sources :
    (operator_id : ℕ) (s : OperatorSafetyStateSnapshot) (k : Text)
    (sources : Dict (List SafetyConditionSnapshot))
    → Distinct sources
    → (lookup k (update_sources operator_id s sources) ≡ (
        if text_eq k (source_key operator_id s.work_session_id)
        then stored s.conditions
        else lookup k sources))
      × Distinct (update_sources operator_id s sources)
unfolding update_sources
lookup-update_sources operator_id s k sources h =
    let key = source_key operator_id s.work_session_id in
    elim (List-cases s.conditions) [
      | inl clear ↦ rw clear (lookup-remove_if k key sources h, remove-Distinct key sources h)
      | inr (c, cs, reported) ↦
          rw reported (lookup-insert k key (c ∷ cs) sources, insert-Distinct key (c ∷ cs) sources h)
    ]

-- Two messages show the same: state, reason and number of conditions.
abbrev pub Alike : SafetyStateMessage → SafetyStateMessage → Type 0
Alike m n =
    (m.state ≡ n.state) × (m.reason ≡ n.reason) × (m.active_conditions ≡ n.active_conditions)

-- There was no message, or one that shows something else.
abbrev pub IsNews : SafetyStateMessage → Option SafetyStateMessage → Type 0
IsNews m none = Unit
IsNews m (some n) = ¬ Alike m n

same_reason_refl : (a : Option SafetyConditionReason) → same_reason a a ≡ true
same_reason_refl none = refl
same_reason_refl (some a) = ground arith

Alike-same_effective_state :
    (m n : SafetyStateMessage) → Alike m n → same_effective_state m n ≡ true
unfolding same_effective_state
Alike-same_effective_state m n (state, reason, count) =
    rw (state, reason, count) (ground (arith, same_reason_refl n.reason))

unchanged-IsNews :
    (m : SafetyStateMessage) (o : Option SafetyStateMessage) → unchanged m o ≡ none → IsNews m o
unchanged-IsNews m none h = tt
unchanged-IsNews m (some n) h =
    λ alike. absurd (ground (arith, Alike-same_effective_state m n alike))

-- For a positive operator, an aware clock, sources without a key twice and at most ten thousand
-- conditions after the snapshot, an update returns a message that is then current and summarises
-- all conditions. The source of the snapshot has its conditions, or is gone if there are none,
-- every other source is as before, and no key stands twice. The message is the one that was
-- current, and nothing is sent, or it has the instant of the clock, differs from the one that was
-- current in state, reason or number of conditions, if there was one, and is published.
pub update_lem :
    (now operator_id : ℕ) (s : OperatorSafetyStateSnapshot) (a : SafetyStateAggregator) (k : Text)
    → 0 < operator_id
    → Distinct a.sources
    → length (all_conditions (update_sources operator_id s a.sources)) ≤ 10000
    → (r : SafetyStateUpdateResult) × (after : SafetyStateAggregator) × (update
          (aware now)
          operator_id
          s
          a
        ≡ (ok r, after))
      × (lookup k after.sources ≡ (
          if text_eq k (source_key operator_id s.work_session_id)
          then stored s.conditions
          else lookup k a.sources))
      × Distinct after.sources
      × (after.current ≡ some r.message)
      × Summarises r.message (all_conditions after.sources)
      × ((r.published ≡ false) × (a.current ≡ some r.message) × (after.broker ≡ a.broker)
          ⊎ (r.published ≡ true)
            × (r.message.updated_at ≡ now)
            × IsNews r.message a.current
            × (after.broker ≡ (publish r.message a.broker).1))
unfolding update update_current
update_lem now operator_id s a k positive distinct bounded =
    let cs = all_conditions (update_sources operator_id s a.sources) in
    let message = calculate_message_lem now cs bounded in
    let (kept_sources, distinct') = lookup-update_sources operator_id s k a.sources distinct in
    elim (Option-cases (unchanged (summary now cs) a.current)) [
      | inl changed ↦ (
        record { message = summary now cs; published = true },
        record {
          sources = update_sources operator_id s a.sources;
          current = some (summary now cs);
          broker = (publish (summary now cs) a.broker).1;
        },
        ground (arith, message, changed),
        kept_sources,
        distinct',
        refl,
        record { state = refl; reason = refl; count = refl },
        inr (refl, refl, unchanged-IsNews (summary now cs) a.current changed, refl),
      )
      | inr (m, kept) ↦
          let (was, alike) = unchanged_lem (summary now cs) m a.current kept in
          let same = same_effective_state_lem (summary now cs) m alike in
          (
            record { message = m; published = false },
            record a { sources = update_sources operator_id s a.sources },
            ground (arith, message, kept),
            kept_sources,
            distinct',
            was,
            record { state = sym same.0; reason = sym same.1; count = sym same.2 },
            inl (refl, was, refl),
          )
    ]
