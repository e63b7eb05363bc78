-- ===== src/Control/Monitoring/Merged.antt =====
-- The violations that `_observe_alerts` of
-- 2identify_operador/app/controllers/active_ppe_monitoring_controller.py merges.
use identify.Base.{
  ◌≡◌, refl, sym, ◌∙◌, true, false, List, [], ◌∷◌, ◌++◌, map, arith, All, All-append, All-imp, ◌==◌,
  Text, text_eq, Str,
}
use mathlib.Core.Path.{subst}
use identify.Base.Dict.{Distinct, contains}
use identify.Domain.Alert.{
  SafetyViolation, SafetyViolationType, ppe_absent, person_in_risk_area, ergonomic_risk, value,
  deduplication_key,
}
use identify.Domain.Alert.Laws.{IsViolation}
use identify.Engine.Alerts.Normalize.{keyed}
use identify.Engine.Ergonomics.Keys.{AreDistinct}

-- What one source reports: built violations of one kind, with distinct subjects.
pub record IsSource (py : Str) (kind : SafetyViolationType) (vs : List SafetyViolation)
    : Type 0 where
  pub built : All (IsViolation py) vs
  pub kinds : All (λ v. v.violation_type ≡ kind) vs
  pub subjects : AreDistinct (map (λ v. v.subject_key) vs)

abbrev Differ : SafetyViolation → SafetyViolation → Type 0
Differ v w = text_eq (deduplication_key v) (deduplication_key w) ≡ false

abbrev Apart : List SafetyViolation → Type 0
Apart [] = Unit
Apart (v ∷ vs) = All (Differ v) vs × Apart vs

Apart-append :
    (xs ys : List SafetyViolation)
    → Apart xs
    → Apart ys
    → All (λ x. All (Differ x) ys) xs
    → Apart (xs ++ ys)
Apart-append [] ys a b h = b
Apart-append (x ∷ xs) ys a b h = (All-append (Differ x) xs ys a.0 h.0, Apart-append xs ys a.1 b h.1)

absent_key :
    (v : SafetyViolation) (ws : List SafetyViolation)
    → All (Differ v) ws
    → contains (deduplication_key v) (map keyed ws) ≡ false
absent_key v [] h = refl
absent_key v (w ∷ ws) h = rw (h.0) (absent_key v ws h.1)

Apart-Distinct : (vs : List SafetyViolation) → Apart vs → Distinct (map keyed vs)
Apart-Distinct [] a = tt
Apart-Distinct (v ∷ vs) a = (absent_key v vs a.0, Apart-Distinct vs a.1)

text_eq-prefix : (p s t : Text) → text_eq (p ++ s) (p ++ t) ≡ text_eq s t
unfolding text_eq
text_eq-prefix [] s t = refl
text_eq-prefix (c ∷ p) s t =
    let same : (c == c) ≡ true = ground arith in rw same (text_eq-prefix p s t)

same_kind :
    (v w : SafetyViolation)
    → v.violation_type ≡ w.violation_type
    → text_eq v.subject_key w.subject_key ≡ false
    → Differ v w
unfolding deduplication_key text_eq
same_kind v w e h =
    subst
      (λ k.
        text_eq (value v.violation_type ++ (b':' ∷ v.subject_key))
          (value k ++ (b':' ∷ w.subject_key))
        ≡ false)
      e (text_eq-prefix (value v.violation_type) (b':' ∷ v.subject_key) (b':' ∷ w.subject_key) ∙ h)

-- The values of two of the three kinds differ in one of their first two characters.
abbrev AreTold : SafetyViolationType → SafetyViolationType → Type 0
AreTold a b = (s t : Text) → text_eq (value a ++ s) (value b ++ t) ≡ false

ppe-ergonomic : AreTold ppe_absent ergonomic_risk
unfolding value text_eq
ppe-ergonomic s t = refl

ppe-person : AreTold ppe_absent person_in_risk_area
unfolding value text_eq
ppe-person s t = refl

ergonomic-person : AreTold ergonomic_risk person_in_risk_area
unfolding value text_eq
ergonomic-person s t = refl

other_kind :
    (a b : SafetyViolationType)
    → AreTold a b
    → (v w : SafetyViolation) → v.violation_type ≡ a
    → w.violation_type ≡ b
    → Differ v w
unfolding deduplication_key
other_kind a b told v w e f =
    subst
      (λ k.
        text_eq (value k ++ (b':' ∷ v.subject_key))
          (value w.violation_type ++ (b':' ∷ w.subject_key))
        ≡ false)
      (sym e)
      (subst
        (λ k.
          text_eq (value a ++ (b':' ∷ v.subject_key)) (value k ++ (b':' ∷ w.subject_key)) ≡ false)
        (sym f) (told (b':' ∷ v.subject_key) (b':' ∷ w.subject_key)))

other_kinds :
    (a b : SafetyViolationType)
    → AreTold a b
    → (xs ys : List SafetyViolation) → All (λ v. v.violation_type ≡ a) xs
    → All (λ v. v.violation_type ≡ b) ys
    → All (λ x. All (Differ x) ys) xs
other_kinds a b told [] ys ha hb = tt
other_kinds a b told (x ∷ xs) ys ha hb = (
  All-imp (λ y. y.violation_type ≡ b) (Differ x) (λ y e. other_kind a b told x y ha.0 e) ys hb,
  other_kinds a b told xs ys ha.1 hb,
)

IsSource-Apart :
    (kind : SafetyViolationType) (vs : List SafetyViolation)
    → All (λ v. v.violation_type ≡ kind) vs
    → AreDistinct (map (λ v. v.subject_key) vs)
    → Apart vs
IsSource-Apart kind [] k d = tt
IsSource-Apart kind (v ∷ vs) k d = (others vs k.1 d.0, IsSource-Apart kind vs k.1 d.1)
  where
    others :
        (ws : List SafetyViolation)
        → All (λ w. w.violation_type ≡ kind) ws
        → All (λ j. text_eq v.subject_key j ≡ false) (map (λ w. w.subject_key) ws)
        → All (Differ v) ws
    others [] h l = tt
    others (w ∷ ws) h l = (same_kind v w (k.0 ∙ sym h.0) l.0, others ws h.1 l.1)

-- The violations of the three sources are built ones, and no deduplication key stands twice.
pub merged-Distinct :
    (py : Str) (ps es rs : List SafetyViolation)
    → IsSource py ppe_absent ps
    → IsSource py ergonomic_risk es
    → IsSource py person_in_risk_area rs
    → All (IsViolation py) (ps ++ (es ++ rs)) × Distinct (map keyed (ps ++ (es ++ rs)))
merged-Distinct py ps es rs p e r = (
  All-append (IsViolation py) ps (es ++ rs) p.built
      (All-append (IsViolation py) es rs e.built r.built),
  Apart-Distinct (ps ++ (es ++ rs)) (
      Apart-append ps (es ++ rs) (IsSource-Apart ppe_absent ps p.kinds p.subjects)
        (Apart-append es rs (IsSource-Apart ergonomic_risk es e.kinds e.subjects)
          (IsSource-Apart person_in_risk_area rs r.kinds r.subjects)
          (other_kinds ergonomic_risk person_in_risk_area ergonomic-person es rs e.kinds r.kinds))
        (both ps (other_kinds ppe_absent ergonomic_risk ppe-ergonomic ps es p.kinds e.kinds)
          (other_kinds ppe_absent person_in_risk_area ppe-person ps rs p.kinds r.kinds))),
)
  where
    both :
        (xs : List SafetyViolation)
        → All (λ x. All (Differ x) es) xs
        → All (λ x. All (Differ x) rs) xs
        → All (λ x. All (Differ x) (es ++ rs)) xs
    both [] h k = tt
    both (x ∷ xs) h k = (All-append (Differ x) es rs h.0 k.0, both xs h.1 k.1)
