-- ===== src/Domain/Alert/Laws.antt =====
-- Violations and alerts that the constructors have built, and what `replace` makes of them.
use identify.Base.{
  ℕ, ◌≤◌, ◌≡◌, some, arith, Str, normalize-normalize, aware, Option-cases, inl, inr,
}
use identify.Base.Result.{ok}
use identify.Domain.Alert.{
  SafetyViolation, SafetyAlert, SafetyAlertSeverity, active, resolved, violation_init, alert_init,
  alert_end, alert_fields, resolve,
}

-- The constructor accepts the value and leaves it as it is.
abbrev pub IsViolation : Str → SafetyViolation → Type 0
IsViolation py v = violation_init py v ≡ ok v

abbrev pub IsAlert : SafetyAlert ℕ → Type 0
IsAlert a = alert_init (alert_fields a) ≡ ok a

-- `replace(violation, severity=…)` of a built violation raises nothing and changes only the severity.
pub violation_init-severity :
    (py : Str) (v : SafetyViolation) (s : SafetyAlertSeverity)
    → IsViolation py v
    → violation_init py (record v { severity = s }) ≡ ok (record v { severity = s })
unfolding violation_init
violation_init-severity py v s h = ground arith

-- A violation that the constructor returns is accepted by the constructor again and left as it is.
pub violation_init-IsViolation :
    (py : Str) (raw : SafetyViolation) {v : SafetyViolation}
    → violation_init py raw ≡ ok v
    → IsViolation py v
unfolding violation_init
violation_init-IsViolation py raw h = elim (Option-cases raw.ppe_name) [
  | inl unnamed ↦ ground (arith, normalize-normalize py raw.subject_key, py.stripped raw.summary)
  | inr (name, named) ↦
      ground
        (arith, normalize-normalize py raw.subject_key, py.stripped raw.summary, py.stripped name)
]

-- An active alert that the constructor accepts is resolved at any aware instant not before it was
-- raised: only its status and its end change.
pub resolve_lem :
    (a : SafetyAlert ℕ) (t : ℕ)
    → IsAlert a
    → a.status ≡ active
    → a.raised_at ≤ t
    → resolve a (aware t) ≡ ok (record a { resolved_at = some t; status = resolved })
unfolding resolve alert_init alert_end
resolve_lem a t h e le = ground arith

-- `replace(alert, violation=…)` of a built alert changes only the violation.
pub alert_init-violation :
    (a : SafetyAlert ℕ) (v : SafetyViolation)
    → IsAlert a
    → alert_init (record (alert_fields a) { violation = v }) ≡ ok (record a { violation = v })
unfolding alert_init alert_end
alert_init-violation a v h = ground arith
