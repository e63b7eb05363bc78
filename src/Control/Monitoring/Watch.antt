-- ===== src/Control/Monitoring/Watch.antt =====
-- `_violations_for` and `_observe_alerts` of
-- 2identify_operador/app/controllers/active_ppe_monitoring_controller.py.
use identify.Base.{
  ℕ, ◌≤◌, ◌≡◌, refl, sym, ap, ◌∙◌, true, false, Option, none, some, List, [], ◌∷◌, ◌++◌, map, any,
  arith, All, Bool-cases, inl, inr, ◌==◌, Text, codes, text_eq, Str, normalize, aware,
}
use mathlib.Core.Path.{subst}
use identify.Base.Result.{ok, Result-cases}
use identify.Domain.Alert.{
  SafetyViolation, ppe_absent, person_in_risk_area, ergonomic_risk, violation_init,
}
use identify.Domain.Alert.Laws.{violation_init-IsViolation}
use identify.Domain.WorkSession.{WorkSession, unique}
use identify.Domain.WorkSession
use identify.Engine.Alerts.Defs.{AlertEngine, AlertEngineUpdate}
use identify.Engine.Alerts.Cycle.{observe}
use identify.Engine.Alerts.Spec.{SeenBefore, IsSession}
use identify.Engine.Alerts.Theorems.{clock, BoundTo, IsValid, CanObserve, observe_total}
use identify.Engine.Safety.Defs.{PpeRequirementAssessment, is_absent}
use identify.Control.Monitoring.Defs.{
  ActivePpeMonitoringController, MonitoringSettings, safety_settings, ActivePage, absent_violation,
  violations_for, merged, report_updates, after_observations, observe_session, observe_alerts,
}
use identify.Control.Monitoring.Merged.{IsSource, merged-Distinct}

-- The keys of different items differ, after their normalisation.
abbrev pub KeysDiffer : Str → (ℕ → Text) → Type 0
KeysDiffer py str_int =
    (a b : ℕ)
    → (a == b) ≡ false
    → text_eq (normalize py (codes "ppe:" ++ str_int a)) (normalize py (codes "ppe:" ++ str_int b))
      ≡ false

violation_init-fields :
    (py : Str) (raw : SafetyViolation) {v : SafetyViolation}
    → violation_init py raw ≡ ok v
    → (v.violation_type ≡ raw.violation_type) × (v.subject_key ≡ normalize py raw.subject_key)
unfolding violation_init
violation_init-fields py raw h = (ground arith, ground arith)

module _ (py : Str) (str_int : ℕ → Text) where
  abbrev ids : List PpeRequirementAssessment → List ℕ
  ids rs = map (λ r. r.ppe_id) rs

  abbrev key_of : ℕ → Text
  key_of n = normalize py (codes "ppe:" ++ str_int n)

  -- the keys that are reported for the requirements
  keys_other :
      KeysDiffer py str_int
      → (n : ℕ) (rs : List PpeRequirementAssessment) {vs : List SafetyViolation}
      → any (λ y. y == n) (ids rs) ≡ false
      → violations_for py str_int rs ≡ ok vs
      → All (λ j. text_eq (key_of n) j ≡ false) (map (λ v. v.subject_key) vs)
  unfolding violations_for
  keys_other differ n [] {vs = vs} h e =
      let same : [] ≡ vs = ground arith in
      subst (λ x. All (λ j. text_eq (key_of n) j ≡ false) (map (λ v. v.subject_key) x)) same tt
  keys_other differ n (r ∷ rs) {vs = vs} h e = elim (Bool-cases (is_absent r.state)) [
    | inr present ↦ keys_other differ n rs (ground arith) (ground (arith, present))
    | inl missing ↦ elim (Result-cases (violation_init py (absent_violation py str_int r))) [
      | inl (x, raised) ↦ absurd (ground arith)
      | inr (v, built) ↦ elim (Result-cases (violations_for py str_int rs)) [
        | inl (x, raised) ↦ absurd (ground arith)
        | inr (us, returned) ↦
            let same : v ∷ us ≡ vs = ground arith in
            let apart : (n == r.ppe_id) ≡ false = ground arith in
            let key = (violation_init-fields py (absent_violation py str_int r) built).1 in
            subst (λ x. All (λ j. text_eq (key_of n) j ≡ false) (map (λ w. w.subject_key) x)) same
              (
                subst (λ k. text_eq (key_of n) k ≡ false) (sym key) (differ n r.ppe_id apart),
                keys_other differ n rs (ground arith) returned,
              )
      ]
    ]
  ]

  -- The violations of an assessment whose items differ are a source of missing equipment.
  pub violations_for-IsSource :
      KeysDiffer py str_int
      → (rs : List PpeRequirementAssessment) {vs : List SafetyViolation} → unique (ids rs) ≡ true
      → violations_for py str_int rs ≡ ok vs
      → IsSource py ppe_absent vs
  unfolding violations_for
  violations_for-IsSource differ [] {vs = vs} h e =
      let same : [] ≡ vs = ground arith in
      subst (IsSource py ppe_absent) same (record { built = tt; kinds = tt; subjects = tt })
  violations_for-IsSource differ (r ∷ rs) {vs = vs} h e = elim (Bool-cases (is_absent r.state)) [
    | inr present ↦ violations_for-IsSource differ rs (ground arith) (ground (arith, present))
    | inl missing ↦ elim (Result-cases (violation_init py (absent_violation py str_int r))) [
      | inl (x, raised) ↦ absurd (ground arith)
      | inr (v, built) ↦ elim (Result-cases (violations_for py str_int rs)) [
        | inl (x, raised) ↦ absurd (ground arith)
        | inr (us, returned) ↦
            let same : v ∷ us ≡ vs = ground arith in
            let rest = violations_for-IsSource differ rs {vs = us} (ground arith) returned in
            let (kind, key) = violation_init-fields py (absent_violation py str_int r) built in
            let other = keys_other differ r.ppe_id rs {vs = us} (ground arith) returned in
            subst (IsSource py ppe_absent) same (record {
              built =
                  (violation_init-IsViolation py (absent_violation py str_int r) built, rest.built);
              kinds = (kind, rest.kinds);
              subjects = (
                subst (λ k. All (λ j. text_eq k j ≡ false) (map (λ w. w.subject_key) us)) (sym key)
                    other,
                rest.subjects,
              );
            })
      ]
    ]
  ]

-- An engine that may observe the session at the instant.
pub record IsReady (py : Str) (ws : WorkSession ℕ) (now : ℕ) (e : AlertEngine) : Type 0 where
  pub valid : IsValid py e
  pub forward : SeenBefore now e.last_observed_at
  pub bound : BoundTo ws.session_id e.work_session_id

-- The page shows an active session, both engines are ready for it, and each list of violations is a
-- source of its kind.
pub record IsWatching {F : Type 0} (py : Str) (page : ActivePage) (ws : WorkSession ℕ) (now : ℕ)
    (c : ActivePpeMonitoringController F) : Type 0 where
  pub shows : page.work_session ≡ some ws
  pub monitors : page.is_monitoring_active ≡ true
  pub session : IsSession ws
  pub active : WorkSession.is_active ws.status ≡ true
  pub started : ws.started_at ≤ now
  pub alerts : IsReady py ws now c.alert_engine
  pub states : IsReady py ws now c.safety_state_engine
  pub ppe : IsSource py ppe_absent c.ppe_violations
  pub ergonomic : IsSource py ergonomic_risk c.ergonomic_violations
  pub risk_area : IsSource py person_in_risk_area c.risk_area_violations

IsReady-after :
    (py : Str) (ws : WorkSession ℕ) (now : ℕ) (e : AlertEngine)
    → IsValid py e
    → clock e ≡ now
    → e.work_session_id ≡ some ws.session_id
    → IsReady py ws now e
IsReady-after py ws now e v k b = record {
  valid = v;
  forward = seen e.last_observed_at k;
  bound = subst (BoundTo ws.session_id) (sym b) refl;
}
  where
    seen : (o : Option ℕ) → elim o as (λ _. ℕ) [ none ↦ 0 | some t ↦ t ] ≡ now → SeenBefore now o
    seen none h = tt
    seen (some t) h = omega (arith, h)

module _ {F : Type 0} (py : Str) (cfg : MonitoringSettings) where
  can_observe :
      (page : ActivePage) (ws : WorkSession ℕ) (now : ℕ) (c : ActivePpeMonitoringController F)
      (e : AlertEngine)
      → IsWatching py page ws now c
      → IsReady py ws now e
      → CanObserve py ws (merged py c) now e
  can_observe page ws now c e h r =
      let (built, distinct) =
        merged-Distinct py c.ppe_violations c.ergonomic_violations c.risk_area_violations h.ppe
          h.ergonomic h.risk_area in
      record {
        session = h.session;
        is_active = h.active;
        started = h.started;
        forward = r.forward;
        bound = r.bound;
        built = built;
        distinct = distinct;
      }

  watched :
      (page : ActivePage) (ws : WorkSession ℕ) (now : ℕ) (c : ActivePpeMonitoringController F)
      → page.work_session ≡ some ws
      → page.is_monitoring_active ≡ true
      → observe_alerts py cfg page now c ≡ observe_session py cfg ws now c
  unfolding observe_alerts
  watched page ws now c shows monitors = rw (observe_alerts, shows, monitors) refl

  reported :
      (ws : WorkSession ℕ) (now : ℕ) (c : ActivePpeMonitoringController F)
      (u1 u2 : AlertEngineUpdate) (e1 e2 : AlertEngine)
      → observe py cfg.alerts ws (merged py c) (aware now) c.alert_engine ≡ (ok u1, e1)
      → observe py (safety_settings cfg) ws (merged py c) (aware now) c.safety_state_engine
        ≡ (ok u2, e2)
      → observe_session py cfg ws now c
        ≡ report_updates py cfg ws now u1 u2
            (record c { alert_engine = e1; safety_state_engine = e2 })
  unfolding observe_session
  reported ws now c u1 u2 e1 e2 first second =
      ap
        (λ p.
          after_observations py cfg ws now c p
            (observe py (safety_settings cfg) ws (merged py c) (aware now) c.safety_state_engine))
        first
      ∙ ap (λ p. after_observations py cfg ws now c (ok u1, e1) p) second

  -- When the page monitors an active session for which both engines are ready, and each of the
  -- three lists holds built violations of its own kind with distinct subjects, then neither engine
  -- refuses the merged violations: their updates are reported with both engines ready for the
  -- session at the instant.
  pub observe_alerts_lem :
      (page : ActivePage) (ws : WorkSession ℕ) (now : ℕ) (c : ActivePpeMonitoringController F)
      → IsWatching py page ws now c
      → (u1 : AlertEngineUpdate) × (u2 : AlertEngineUpdate) × (e1 : AlertEngine)
        × (e2 : AlertEngine) × (observe_alerts py cfg page now c
            ≡ report_updates py cfg ws now u1 u2
                (record c { alert_engine = e1; safety_state_engine = e2 }))
        × (observe py cfg.alerts ws (merged py c) (aware now) c.alert_engine ≡ (ok u1, e1))
        × (observe py (safety_settings cfg) ws (merged py c) (aware now) c.safety_state_engine
            ≡ (ok u2, e2))
        × IsReady py ws now e1
        × IsReady py ws now e2
  observe_alerts_lem page ws now c h =
      let (u1, e1, first, valid1, clock1, bound1) =
        observe_total py cfg.alerts ws (merged py c) now c.alert_engine
          (can_observe page ws now c c.alert_engine h h.alerts) h.alerts.valid in
      let (u2, e2, second, valid2, clock2, bound2) =
        observe_total py (safety_settings cfg) ws (merged py c) now c.safety_state_engine
          (can_observe page ws now c c.safety_state_engine h h.states) h.states.valid in
      (
        u1,
        u2,
        e1,
        e2,
        watched page ws now c h.shows h.monitors ∙ reported ws now c u1 u2 e1 e2 first second,
        first,
        second,
        IsReady-after py ws now e1 valid1 clock1 bound1,
        IsReady-after py ws now e2 valid2 clock2 bound2,
      )
