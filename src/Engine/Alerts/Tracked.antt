-- ===== src/Engine/Alerts/Tracked.antt =====
-- What the engine knows of a condition stays known: under the passing of time, under an observation
-- and under its absence.
use identify.Base.{
  ℕ, ◌≤◌, ◌≡◌, refl, sym, ◌⊎◌, Option, none, some, [], ◌∷◌, arith, inl, inr, Option-cases,
  Bool-cases, All, Str, Text,
}
use mathlib.Core.Path.{subst}
use identify.Base.Dict.{Dict, lookup, insert, insert-Distinct, All-insert, All-lookup}
use identify.Domain.Alert.{SafetyViolation, SafetyAlert, critical, alert_init, alert_end}
use identify.Domain.Alert.Laws.{IsViolation, violation_init-severity, alert_init-violation}
use identify.Domain.WorkSession.{WorkSession}
use identify.Engine.Alerts.Defs.{Settings, ConditionState, note, must_escalate, can_raise}
use identify.Engine.Alerts.Spec.{
  quiet, raise, escalate, new_alert, severity_at, with_critical, decide, after, absent, IsOpen,
  OpenIfAny, SeenBefore, IsTracked, AreTracked, IsSession,
}

-- Time passes.
pub IsTracked-le :
    (py : Str) {t u : ℕ} (s : ConditionState) → t ≤ u → IsTracked py t s → IsTracked py u s
IsTracked-le py {t} {u} s le k = record {
  built = k.built;
  seen = seen_le s.first_observed_at k.seen;
  open_alert = open_le s.active_alert k.open_alert;
}
  where
    seen_le : (o : Option ℕ) → SeenBefore t o → SeenBefore u o
    seen_le none h = tt
    seen_le (some first) h = omega arith

    open_le : (o : Option (SafetyAlert ℕ)) → OpenIfAny py t o → OpenIfAny py u o
    open_le none h = tt
    open_le (some a) h = record {
      built = h.built;
      violation_built = h.violation_built;
      is_active = h.is_active;
      raised_before = omega arith;
    }

note-some-IsTracked :
    (py : Str) (v : SafetyViolation) (t : ℕ) (s : ConditionState)
    → IsViolation py v
    → IsTracked py t s
    → IsTracked py t (note v t (some s))
unfolding note
note-some-IsTracked py v t s b k = elim (Option-cases s.first_observed_at) [
  | inl fresh ↦ rw fresh (record { built = b; seen = omega arith; open_alert = k.open_alert })
  | inr (first, seen) ↦ rw seen (record { built = b; seen = k.seen; open_alert = k.open_alert })
]

-- An observation of a built violation.
pub note-IsTracked :
    (py : Str) (v : SafetyViolation) (t : ℕ) (key : Text) (states : Dict ConditionState)
    → IsViolation py v
    → AreTracked py t states
    → IsTracked py t (note v t (lookup key states))
unfolding note
note-IsTracked py v t key states b k = elim (Option-cases (lookup key states)) [
  | inl unknown ↦ rw unknown (record { built = b; seen = omega arith; open_alert = tt })
  | inr (s, known) ↦
      rw known
        (note-some-IsTracked py v t s b (All-lookup (IsTracked py t) key states k.tracked known))
]

new_alert-IsOpen :
    (py : Str) (cfg : Settings) (ws : WorkSession ℕ) (t : ℕ) (s : ConditionState) (id first : ℕ)
    → IsSession ws
    → IsViolation py s.violation
    → first ≤ t
    → IsOpen py t (new_alert cfg ws s t id first)
unfolding alert_init alert_end
new_alert-IsOpen py cfg ws t s id first w b le = record {
  built = ground arith;
  violation_built = violation_init-severity py s.violation (severity_at cfg first t) b;
  is_active = refl;
  raised_before = omega arith;
}

with_critical-IsOpen :
    (py : Str) (t : ℕ) (a : SafetyAlert ℕ) → IsOpen py t a → IsOpen py t (with_critical a)
with_critical-IsOpen py t a o = record {
  built = alert_init-violation a (record a.violation { severity = critical }) o.built;
  violation_built = violation_init-severity py a.violation critical o.violation_built;
  is_active = o.is_active;
  raised_before = o.raised_before;
}

-- The alert of a decision is open.
pub decide-IsOpen :
    (py : Str) (cfg : Settings) (ws : WorkSession ℕ) (t id : ℕ) (s : ConditionState)
    → IsSession ws
    → IsTracked py t s
    → let d = decide cfg ws t id s in
      (d ≡ quiet) ⊎ ((a : SafetyAlert ℕ) × ((d ≡ raise a) ⊎ (d ≡ escalate a)) × IsOpen py t a)
unfolding decide
decide-IsOpen py cfg ws t id s w k = elim (Option-cases s.first_observed_at) [
  | inl unseen ↦ inl (ground arith)
  | inr (first, seen) ↦ elim (Option-cases s.active_alert) [
    | inl idle ↦ elim (Bool-cases (can_raise cfg s t)) [
      | inl may ↦ inr (
        new_alert cfg ws s t id first,
        inl (ground arith),
        new_alert-IsOpen py cfg ws t s id first w k.built (ground arith),
      )
      | inr may_not ↦ inl (ground arith)
    ]
    | inr (a, is_open) ↦
        elim (Bool-cases (must_escalate a.violation.severity (severity_at cfg first t))) [
          | inl must ↦ inr (
            with_critical a,
            inr (ground arith),
            with_critical-IsOpen py t a (subst (OpenIfAny py t) is_open k.open_alert),
          )
          | inr need_not ↦ inl (ground arith)
        ]
  ]
]

-- The decision on a tracked condition.
pub after-IsTracked :
    (py : Str) (cfg : Settings) (ws : WorkSession ℕ) (t id : ℕ) (s : ConditionState)
    → IsSession ws
    → IsTracked py t s
    → IsTracked py t (after (decide cfg ws t id s) s)
after-IsTracked py cfg ws t id s w k = elim (decide-IsOpen py cfg ws t id s w k) [
  | inl same ↦ rw same k
  | inr (a, inl raised, o) ↦ rw raised (record { built = k.built; seen = k.seen; open_alert = o })
  | inr (a, inr raised, o) ↦ rw raised (record { built = k.built; seen = k.seen; open_alert = o })
]

-- A cycle that does not observe a tracked condition.
pub absent-IsTracked :
    (py : Str) (cfg : Settings) (t : ℕ) (s : ConditionState)
    → IsTracked py t s
    → IsTracked py t (absent cfg t s)
unfolding absent
absent-IsTracked py cfg t s k = record {
  built = ground arith;
  seen = subst (SeenBefore t) (sym unseen) tt;
  open_alert = open_alert;
}
  where
    unseen : (absent cfg t s).first_observed_at ≡ none
    unseen = ground arith

    kept : ((absent cfg t s).active_alert ≡ none) ⊎ ((absent cfg t s).active_alert ≡ s.active_alert)
    kept = ground arith

    open_alert : OpenIfAny py t (absent cfg t s).active_alert
    open_alert = elim kept [
      | inl closed ↦ subst (OpenIfAny py t) (sym closed) tt
      | inr same ↦ subst (OpenIfAny py t) (sym same) k.open_alert
    ]

pub insert-AreTracked :
    (py : Str) (t : ℕ) (key : Text) (s : ConditionState) (states : Dict ConditionState)
    → AreTracked py t states
    → IsTracked py t s
    → AreTracked py t (insert key s states)
insert-AreTracked py t key s states k n = record {
  distinct = insert-Distinct key s states k.distinct;
  tracked = All-insert (IsTracked py t) key s states k.tracked n;
}

pub AreTracked-le :
    (py : Str) {t u : ℕ} (states : Dict ConditionState)
    → t ≤ u
    → AreTracked py t states
    → AreTracked py u states
AreTracked-le py {t} {u} states le k = record {
  distinct = k.distinct;
  tracked = go states k.tracked;
}
  where
    go :
        (d : Dict ConditionState)
        → All (λ entry. IsTracked py t entry.1) d
        → All (λ entry. IsTracked py u entry.1) d
    go [] h = tt
    go ((key, s) ∷ d) h = (IsTracked-le py s le h.0, go d h.1)
