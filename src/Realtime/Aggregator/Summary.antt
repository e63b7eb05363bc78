-- ===== src/Realtime/Aggregator/Summary.antt =====
-- What the message of the aggregator says of the conditions, described on its own:
-- 2identify_api/app/services/safety_state.py, `_calculate_message`.
use identify.Base.{
  ℕ, ◌≤◌, ◌≡◌, ◌∙◌, refl, ap, Bool, true, false, Option, none, some, List, [], ◌∷◌, map, arith,
  length, any, keep, leb, if◌then◌else◌, Bool-cases, inl, inr, aware,
}
use identify.Base.Result.{ok}
use identify.Realtime.Aggregator.Defs.{
  SafetyConditionLevel, medium, critical, SafetyConditionReason, ppe_missing, ergonomic_risk,
  person_in_risk_area, HardwareSafetyState, green, yellow, red, SafetyConditionSnapshot,
  SafetyStateMessage, message_init, safe_state_message, max_from, max_by, level_lt, leading_lt,
  same_level, state_for_level, calculate_message,
}

abbrev pub is_critical : SafetyConditionSnapshot → Bool
is_critical c = same_level c.level critical

abbrev pub is_person : SafetyConditionSnapshot → Bool
is_person c = elim c.reason [ person_in_risk_area ↦ true | _ ↦ false ]

abbrev pub is_ppe : SafetyConditionSnapshot → Bool
is_ppe c = elim c.reason [ ppe_missing ↦ true | _ ↦ false ]

-- Red for a critical condition, else yellow for any, else green.
abbrev pub summary_state : List SafetyConditionSnapshot → HardwareSafetyState
summary_state [] = green
summary_state (c ∷ cs) = if any is_critical (c ∷ cs) then red else yellow

-- A person in a risk area before missing equipment before an ergonomic risk.
abbrev pub top_reason : List SafetyConditionSnapshot → SafetyConditionReason
top_reason cs =
    if any is_person cs
    then person_in_risk_area
    else if any is_ppe cs
    then ppe_missing
    else ergonomic_risk

-- The reason is one of the critical conditions where there are any.
abbrev pub summary_reason : List SafetyConditionSnapshot → Option SafetyConditionReason
summary_reason [] = none
summary_reason (c ∷ cs) =
    if any is_critical (c ∷ cs)
    then some (top_reason (keep is_critical (c ∷ cs)))
    else some (top_reason (c ∷ cs))

max_from-level :
    (l : SafetyConditionLevel) (cs : List SafetyConditionSnapshot)
    → max_from level_lt l (map (λ c. c.level) cs) ≡ (if any is_critical cs then critical else l)
max_from-level l [] = refl
max_from-level critical (c ∷ cs) = ground (arith, max_from-level critical cs)
max_from-level medium (c ∷ cs) = ground (arith, max_from-level c.level cs)

max_from-reason :
    (c : SafetyConditionSnapshot) (cs : List SafetyConditionSnapshot)
    → (max_from leading_lt c cs).reason ≡ top_reason (c ∷ cs)
max_from-reason c [] = ground arith
max_from-reason c (d ∷ cs) = ground (arith, max_from-reason c cs, max_from-reason d cs)

keep-all :
    (l : SafetyConditionLevel) (cs : List SafetyConditionSnapshot)
    → l ≡ medium
    → any is_critical cs ≡ false
    → keep (λ c. same_level c.level l) cs ≡ cs
keep-all l [] m h = refl
keep-all l (c ∷ cs) m h = ground (arith, keep-all l cs m)

-- The leading condition of a level that has some.
leading_lem :
    (cs : List SafetyConditionSnapshot)
    → leb (length cs) 0 ≡ false
    → (c : SafetyConditionSnapshot) × (max_by leading_lt cs ≡ some c) × (c.reason ≡ top_reason cs)
leading_lem [] h = absurd (ground arith)
leading_lem (c ∷ cs) h = (max_from leading_lt c cs, refl, max_from-reason c cs)

keep-nonempty :
    (cs : List SafetyConditionSnapshot)
    → any is_critical cs ≡ true
    → leb (length (keep is_critical cs)) 0 ≡ false
keep-nonempty [] h = absurd (ground arith)
keep-nonempty (c ∷ cs) h = ground (arith, keep-nonempty cs)

-- The message that the aggregator should hold for some conditions.
abbrev pub summary : ℕ → List SafetyConditionSnapshot → SafetyStateMessage
summary now cs = record {
  state = summary_state cs;
  reason = summary_reason cs;
  active_conditions = length cs;
  updated_at = now;
}

calculated :
    (now : ℕ) (cs : List SafetyConditionSnapshot) (l : SafetyConditionLevel)
    (leading : SafetyConditionSnapshot)
    → leb (length cs) 0 ≡ false
    → length cs ≤ 10000
    → max_by level_lt (map (λ c. c.level) cs) ≡ some l
    → max_by leading_lt (keep (λ c. same_level c.level l) cs) ≡ some leading
    → calculate_message (aware now) cs
      ≡ ok (record {
        state = state_for_level l;
        reason = some leading.reason;
        active_conditions = length cs;
        updated_at = now;
      })
unfolding calculate_message message_init
calculated now cs critical leading h k e f = ground (arith, e, f)
calculated now cs medium leading h k e f = ground (arith, e, f)

-- With an aware clock and at most ten thousand conditions, the calculated message is the summary:
-- green for none, red if any is critical, else yellow, with the most urgent reason of the highest
-- level and the number of conditions.
pub calculate_message_lem :
    (now : ℕ) (cs : List SafetyConditionSnapshot)
    → length cs ≤ 10000
    → calculate_message (aware now) cs ≡ ok (summary now cs)
unfolding calculate_message safe_state_message message_init
calculate_message_lem now [] h = ground arith
calculate_message_lem now (c ∷ cs) h = elim (Bool-cases (any is_critical (c ∷ cs))) [
  | inl some_critical ↦
      let highest : max_by level_lt (map (λ c. c.level) (c ∷ cs)) ≡ some critical =
        ground (arith, max_from-level c.level cs) in
      let (leading, e, r) =
        leading_lem (keep is_critical (c ∷ cs)) (keep-nonempty (c ∷ cs) some_critical) in
      calculated now (c ∷ cs) critical leading (ground arith) h highest e
      ∙ ground (arith, r, some_critical)
  | inr none_critical ↦
      let highest : max_by level_lt (map (λ c. c.level) (c ∷ cs)) ≡ some medium =
        ground (arith, max_from-level c.level cs) in
      let (leading, e, r) = leading_lem (c ∷ cs) (ground arith) in
      let same = keep-all medium (c ∷ cs) refl none_critical in
      calculated now (c ∷ cs) medium leading (ground arith) h highest
        (ap (max_by leading_lt) same ∙ e)
      ∙ ground (arith, r, none_critical)
]
