-- ===== src/Engine/Alerts/Normalize.antt =====
-- `_normalize_violations`: the violations of a cycle by their deduplication keys.
use identify.Base.{
  ◌≡◌, refl, sym, false, List, [], ◌∷◌, ◌++◌, map, arith, All, Bool-cases, inl, inr, Str, Text,
}
use mathlib.Core.Path.{subst}
use mathlib.Core.List.{append-nil, append_assoc}
use identify.Base.Dict.{
  Dict, Distinct, contains, insert, insert-Distinct, All-insert, not-contains-prefix,
}
use identify.Base.Result.{ok}
use identify.Domain.Alert.{SafetyViolation, deduplication_key}
use identify.Domain.Alert.Laws.{IsViolation}
use identify.Engine.Alerts.Cycle.{collect_violations, normalize_violations}

abbrev pub keyed : SafetyViolation → Text × SafetyViolation
keyed v = (deduplication_key v, v)

-- a write to an absent key appends
pub insert_absent :
    {V : Type 0} (k : Text) (v : V) (d : Dict V)
    → contains k d ≡ false
    → insert k v d ≡ d ++ ((k, v) ∷ [])
insert_absent k v [] h = refl
insert_absent k v ((j, w) ∷ d) h = ground (arith, insert_absent k v d)

-- What the loop has collected by the time it ends.
record Collected (py : Str) (current : Dict SafetyViolation) : Type 0 where
  pub distinct : Distinct current
  pub built : All (λ entry. IsViolation py entry.1) current

collect-Collected :
    (py : Str) (result : Dict SafetyViolation) (vs : List SafetyViolation)
    {current : Dict SafetyViolation}
    → Collected py result
    → All (IsViolation py) vs
    → collect_violations result vs ≡ ok current
    → Collected py current × (current ≡ result ++ map keyed vs)
unfolding collect_violations
collect-Collected py result [] c b h =
    (subst (Collected py) (ground arith) c, ground (arith, append-nil result))
collect-Collected py result (v ∷ vs) {current} c b h =
    elim (Bool-cases (contains (deduplication_key v) result)) [
      | inl twice ↦ absurd (ground arith)
      | inr once ↦
          let (c', e) =
            collect-Collected py (insert (deduplication_key v) v result) vs {current = current}
              (record {
                distinct = insert-Distinct _ v result c.distinct;
                built = All-insert (IsViolation py) _ v result c.built b.0;
              })
              b.1 (ground arith) in
          (
            c',
            ground (
              arith,
              e,
              insert_absent (deduplication_key v) v result once,
              append_assoc result (keyed v ∷ []) (map keyed vs),
            ),
          )
    ]

-- A dictionary that is returned holds each violation once, under its key and in order.
pub normalize_violations_lem :
    (py : Str) (vs : List SafetyViolation) {current : Dict SafetyViolation}
    → All (IsViolation py) vs
    → normalize_violations vs ≡ ok current
    → Distinct current × All (λ entry. IsViolation py entry.1) current × (current ≡ map keyed vs)
unfolding normalize_violations
normalize_violations_lem py vs b h =
    let (c, e) = collect-Collected py [] vs (record { distinct = tt; built = tt }) b h in
    (c.distinct, c.built, e)

collect-ok :
    (result : Dict SafetyViolation) (vs : List SafetyViolation)
    → Distinct (result ++ map keyed vs)
    → collect_violations result vs ≡ ok (result ++ map keyed vs)
unfolding collect_violations
collect-ok result [] h = ground (arith, append-nil result)
collect-ok result (v ∷ vs) h =
    let fresh = not-contains-prefix (deduplication_key v) v result (map keyed vs) h in
    let regroup = append_assoc result (keyed v ∷ []) (map keyed vs) in
    ground (
      arith,
      fresh,
      insert_absent (deduplication_key v) v result fresh,
      regroup,
      collect-ok (result ++ (keyed v ∷ [])) vs (subst Distinct (sym regroup) h),
    )

-- Violations with distinct keys are accepted.
pub normalize_violations-Distinct :
    (vs : List SafetyViolation)
    → Distinct (map keyed vs)
    → normalize_violations vs ≡ ok (map keyed vs)
unfolding normalize_violations
normalize_violations-Distinct vs h = collect-ok [] vs h
