-- ===== src/Engine/Alerts/Loops.antt =====
-- The two loops of `AlertEngine.observe` as plain recursions on the automaton.
use identify.Base.{
  ℕ, ◌≤◌, ◌≡◌, refl, sym, ap, ◌∙◌, Bool, true, false, Option, none, some, List, [], ◌∷◌, ◌++◌,
  arith, inl, inr, All, Bool-cases, if◌then◌else◌, Str, Text, text_eq, text_eq_iff,
}
use mathlib.Core.List.{append-nil, append_assoc}
use mathlib.Core.Option
use mathlib.Core.Path.{subst}
use identify.Base.Dict.{Dict, Distinct, lookup, contains, insert, lookup-insert, insert-middle}
use identify.Base.Result.{ok}
use identify.Domain.Alert.{SafetyViolation, SafetyAlert}
use identify.Domain.Alert.Laws.{IsViolation}
use identify.Domain.WorkSession.{WorkSession}
use identify.Engine.Alerts.Defs.{
  Settings, ConditionState, AlertEngine, Changes, note, observe_current, clear_absent,
}
use identify.Engine.Alerts.Spec.{
  Decision, decide, after, report, issue, absent, resolution, IsTracked, AreTracked, IsSession,
}
use identify.Engine.Alerts.Step.{observe_violation_lem, clear_condition_lem}
use identify.Engine.Alerts.Tracked.{
  note-IsTracked, after-IsTracked, absent-IsTracked, insert-AreTracked,
}

module _ (cfg : Settings) (ws : WorkSession ℕ) (t : ℕ) where
  -- a condition that the cycle observes, with the identifier that a new alert would get
  abbrev pub observed : ℕ → SafetyViolation → Option ConditionState → ConditionState
  observed id v known = let s = note v t known in after (decide cfg ws t id s) s

  abbrev pub decision : AlertEngine → Text → SafetyViolation → Decision
  decision e key v =
      decide cfg ws t (cfg.alert_id_factory e.issued) (note v t (lookup key e.states))

  abbrev pub engine_after : AlertEngine → Text → SafetyViolation → AlertEngine
  engine_after e key v = record e {
    states = insert key (after (decision e key v) (note v t (lookup key e.states))) e.states;
    issued = issue (decision e key v) e.issued;
  }

  -- the first loop
  unfoldable pub current_after :
      Dict SafetyViolation → Changes → AlertEngine → Changes × AlertEngine
  current_after [] changes e = (changes, e)
  current_after ((key, v) ∷ rest) changes e =
      current_after rest (report (decision e key v) changes) (engine_after e key v)

  abbrev pub AllBuilt : Str → Dict SafetyViolation → Type 0
  AllBuilt py current = All (λ entry. IsViolation py entry.1) current

  pub engine_after-AreTracked :
      (py : Str) (key : Text) (v : SafetyViolation) (e : AlertEngine)
      → IsSession ws
      → IsViolation py v
      → AreTracked py t e.states
      → AreTracked py t (engine_after e key v).states
  engine_after-AreTracked py key v e w b k =
      insert-AreTracked py t key _ e.states k
        (after-IsTracked py cfg ws t _ _ w (note-IsTracked py v t key e.states b k))

  pub observe_current_lem :
      (py : Str) (current : Dict SafetyViolation) (changes : Changes) (e : AlertEngine)
      → IsSession ws
      → AllBuilt py current
      → AreTracked py t e.states
      → observe_current py cfg ws t current changes e
        ≡ (ok (current_after current changes e).0, (current_after current changes e).1)
  unfolding observe_current current_after
  observe_current_lem py [] changes e w b k = refl
  observe_current_lem py ((key, v) ∷ rest) changes e w b k = ground (
    arith,
    observe_violation_lem py cfg ws t key v changes e w (note-IsTracked py v t key e.states b.0 k),
    observe_current_lem py rest (report (decision e key v) changes) (engine_after e key v) w b.1
        (engine_after-AreTracked py key v e w b.0 k),
  )

  pub current_after-AreTracked :
      (py : Str) (current : Dict SafetyViolation) (changes : Changes) (e : AlertEngine)
      → IsSession ws
      → AllBuilt py current
      → AreTracked py t e.states
      → AreTracked py t (current_after current changes e).1.states
  unfolding current_after
  current_after-AreTracked py [] changes e w b k = k
  current_after-AreTracked py ((key, v) ∷ rest) changes e w b k =
      current_after-AreTracked py rest _ _ w b.1 (engine_after-AreTracked py key v e w b.0 k)

  -- A condition that the cycle does not observe is left alone by the first loop.
  pub current_after_other :
      (current : Dict SafetyViolation) (changes : Changes) (e : AlertEngine) (j : Text)
      → lookup j current ≡ none
      → lookup j (current_after current changes e).1.states ≡ lookup j e.states
  unfolding current_after
  current_after_other [] changes e j h = refl
  current_after_other ((key, v) ∷ rest) changes e j h = elim (Bool-cases (text_eq j key)) [
    | inl here ↦ ground arith
    | inr there ↦
        current_after_other rest (report (decision e key v) changes) (engine_after e key v) j
          (ground arith)
        ∙ ground (
          arith,
          lookup-insert j key (after (decision e key v) (note v t (lookup key e.states))) e.states,
        )
  ]

  -- A condition that the cycle observes makes one step of the automaton.
  pub current_after-observed :
      (current : Dict SafetyViolation) (changes : Changes) (e : AlertEngine) (j : Text)
      (v : SafetyViolation)
      → Distinct current
      → lookup j current ≡ some v
      → (n : ℕ) × (e.issued ≤ n)
        × (lookup j (current_after current changes e).1.states
            ≡ some (observed (cfg.alert_id_factory n) v (lookup j e.states)))
  unfolding current_after
  current_after-observed [] changes e j v d h = absurd (ground arith)
  current_after-observed ((key, u) ∷ rest) changes e j v d h = elim (Bool-cases (text_eq j key)) [
    | inl here ↦ (
      e.issued,
      omega arith,
      current_after_other rest (report (decision e key u) changes) (engine_after e key u) j
            (ground (arith, text_eq_iff j key))
          ∙ ground (
            arith,
            text_eq_iff j key,
            lookup-insert j key (after (decision e key u) (note u t (lookup key e.states)))
                e.states,
          ),
    )
    | inr there ↦
        let (n, le, stepped) =
          current_after-observed rest (report (decision e key u) changes) (engine_after e key u) j v
            d.1 (ground arith) in
        (
          n,
          ground arith,
          stepped
              ∙ ap (λ known. some (observed (cfg.alert_id_factory n) v known))
                  (ground (
                    arith,
                    lookup-insert j key (after (decision e key u) (note u t (lookup key e.states)))
                        e.states,
                  )),
        )
  ]

-- the second loop: every condition that is not observed makes its step
unfoldable pub sweep :
    Settings → ℕ → Dict SafetyViolation → Dict ConditionState → Dict ConditionState
sweep cfg t current [] = []
sweep cfg t current ((key, s) ∷ rest) =
    (key, if contains key current then s else absent cfg t s) ∷ sweep cfg t current rest

-- the alerts that the second loop resolves, in the order of the conditions
unfoldable pub resolutions :
    Settings → ℕ → Dict SafetyViolation → Dict ConditionState → List (SafetyAlert ℕ)
resolutions cfg t current [] = []
resolutions cfg t current ((key, s) ∷ rest) =
    (if contains key current then [] else resolution cfg t s) ++ resolutions cfg t current rest

module _ (py : Str) (cfg : Settings) (t : ℕ) (current : Dict SafetyViolation)
    (e : AlertEngine) where
  -- The second loop has the entries of `rest` still to visit.
  abbrev Sweeps : Dict ConditionState → Dict ConditionState → List (SafetyAlert ℕ) → Type 0
  Sweeps done rest resolved =
      clear_absent cfg t current rest resolved (record e { states = done ++ rest }) ≡ (
        ok (resolved ++ resolutions cfg t current rest),
        record e { states = done ++ sweep cfg t current rest },
      )

  -- One entry more has been visited.
  Sweeps-next :
      (done rest : Dict ConditionState) (key : Text) (s : ConditionState)
      (resolved : List (SafetyAlert ℕ))
      → (AreTracked py t ((done ++ (key, s) ∷ []) ++ rest)
          → Sweeps (done ++ (key, s) ∷ []) rest resolved)
      → AreTracked py t (done ++ (key, s) ∷ rest)
      → clear_absent cfg t current rest resolved (record e { states = done ++ (key, s) ∷ rest }) ≡ (
        ok (resolved ++ resolutions cfg t current rest),
        record e { states = done ++ (key, s) ∷ sweep cfg t current rest },
      )
  Sweeps-next done rest key s resolved ih k =
      let regroup : (done ++ (key, s) ∷ []) ++ rest ≡ done ++ (key, s) ∷ rest =
        append_assoc done ((key, s) ∷ []) rest in
      ground (
        arith,
        regroup,
        append_assoc done ((key, s) ∷ []) (sweep cfg t current rest),
        ih (subst (AreTracked py t) (sym regroup) k),
      )

  IsTracked-middle :
      (done rest : Dict ConditionState) (key : Text) (s : ConditionState)
      → All (λ entry. IsTracked py t entry.1) (done ++ (key, s) ∷ rest)
      → IsTracked py t s
  IsTracked-middle [] rest key s h = h.0
  IsTracked-middle (x ∷ done) rest key s h = IsTracked-middle done rest key s h.1

  replace_middle :
      (done rest : Dict ConditionState) (key : Text) (s : ConditionState)
      → AreTracked py t (done ++ (key, s) ∷ rest)
      → AreTracked py t (done ++ (key, absent cfg t s) ∷ rest)
  replace_middle done rest key s k =
      subst (AreTracked py t) (insert-middle key s (absent cfg t s) done rest k.distinct) (
        insert-AreTracked py t key (absent cfg t s) (done ++ (key, s) ∷ rest) k
          (absent-IsTracked py cfg t s (IsTracked-middle done rest key s k.tracked)))

  pub clear_absent_lem :
      (done rest : Dict ConditionState) (resolved : List (SafetyAlert ℕ))
      → AreTracked py t (done ++ rest)
      → Sweeps done rest resolved
  unfolding clear_absent sweep resolutions
  clear_absent_lem done [] resolved k = ground (arith, append-nil done, append-nil resolved)
  clear_absent_lem done ((key, s) ∷ rest) resolved k = elim (Bool-cases (contains key current)) [
    | inl present ↦ rw present (
        Sweeps-next done rest key s resolved
          (clear_absent_lem (done ++ (key, s) ∷ []) rest resolved) k)
    | inr gone ↦ ground (
      arith,
      clear_condition_lem py cfg t key s resolved (record e { states = done ++ (key, s) ∷ rest })
          (IsTracked-middle done rest key s k.tracked),
      insert-middle key s (absent cfg t s) done rest k.distinct,
      append_assoc resolved (resolution cfg t s) (resolutions cfg t current rest),
      Sweeps-next done rest key (absent cfg t s) (resolved ++ resolution cfg t s)
          (clear_absent_lem (done ++ (key, absent cfg t s) ∷ []) rest
            (resolved ++ resolution cfg t s))
          (replace_middle done rest key s k),
    )
  ]

pub lookup-sweep :
    (cfg : Settings) (t : ℕ) (current : Dict SafetyViolation) (j : Text)
    (states : Dict ConditionState)
    → lookup j (sweep cfg t current states) ≡ (
        if contains j current then lookup j states else Option.map (absent cfg t) (lookup j states))
unfolding sweep
lookup-sweep cfg t current j [] = ground arith
lookup-sweep cfg t current j ((key, s) ∷ rest) =
    ground (arith, text_eq_iff j key, lookup-sweep cfg t current j rest)

pub sweep-AreTracked :
    (py : Str) (cfg : Settings) (t : ℕ) (current : Dict SafetyViolation)
    (states : Dict ConditionState)
    → AreTracked py t states
    → AreTracked py t (sweep cfg t current states)
unfolding sweep
sweep-AreTracked py cfg t current [] k = k
sweep-AreTracked py cfg t current ((key, s) ∷ rest) k =
    let rest_tracked =
      sweep-AreTracked py cfg t current rest
        (record { distinct = k.distinct.1; tracked = k.tracked.1 }) in
    record {
      distinct = (ground (arith, lookup-sweep cfg t current key rest), rest_tracked.distinct);
      tracked = (visited (contains key current), rest_tracked.tracked);
    }
  where
    visited : (b : Bool) → IsTracked py t (if b then s else absent cfg t s)
    visited true = k.tracked.0
    visited false = absent-IsTracked py cfg t s k.tracked.0

-- The first loop leaves the clock and the session alone.
pub current_after_frame :
    (cfg : Settings) (ws : WorkSession ℕ) (t : ℕ) (current : Dict SafetyViolation)
    (changes : Changes) (e : AlertEngine)
    → let e' = (current_after cfg ws t current changes e).1 in
      (e'.last_observed_at ≡ e.last_observed_at) × (e'.work_session_id ≡ e.work_session_id)
unfolding current_after
current_after_frame cfg ws t [] changes e = (refl, refl)
current_after_frame cfg ws t ((key, v) ∷ rest) changes e =
    current_after_frame cfg ws t rest _ (engine_after cfg ws t e key v)
