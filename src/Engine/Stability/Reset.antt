-- ===== src/Engine/Stability/Reset.antt =====
-- `reset` of 2identify_operador/app/engine/ppe_stability.py.
use identify.Base.{
  ℕ, ◌≡◌, refl, true, false, List, [], ◌∷◌, ◌++◌, arith, All, All-append, any-append, text_eq,
  Bool-cases, inl, inr, is_empty, if◌then◌else◌, Text, text_eq_iff, Str, normalize,
  normalize-normalize,
}
use mathlib.Core.Path.{subst}
use identify.Base.Floats.{Floats}
use identify.Base.Result.{ok, Result-cases}
use identify.Domain.Operation.{mem_text}
use identify.Engine.Stability.Defs.{
  PpeStabilityEngine, unique_texts, normalize_classes, reset, stability_init,
}
use identify.Engine.Stability.Laws.{IsClass, IsValid}

module _ (py : Str) where
  unique_texts-snoc :
      (xs : List Text) (c : Text)
      → unique_texts xs ≡ true
      → mem_text c xs ≡ false
      → unique_texts (xs ++ (c ∷ [])) ≡ true
  unique_texts-snoc [] c h k = refl
  unique_texts-snoc (x ∷ xs) c h k = ground (
    arith,
    unique_texts-snoc xs c,
    any-append (λ y. text_eq x y) xs (c ∷ []),
    text_eq_iff x c,
    text_eq_iff c x,
  )

  normalize_classes-IsClass :
      (cs kept : List Text) {ks : List Text}
      → All (IsClass py) kept
      → unique_texts kept ≡ true
      → normalize_classes py kept cs ≡ ok ks
      → All (IsClass py) ks × (unique_texts ks ≡ true)
  unfolding normalize_classes
  normalize_classes-IsClass [] kept {ks = ks} h u e =
      let same : kept ≡ ks = ground arith in
      (subst (λ xs. All (IsClass py) xs) same h, subst (λ xs. unique_texts xs ≡ true) same u)
  normalize_classes-IsClass (c ∷ cs) kept h u e = elim (Bool-cases (is_empty (normalize py c))) [
    | inl blank ↦ absurd (ground arith)
    | inr word ↦ elim (Bool-cases (mem_text (normalize py c) kept)) [
      | inl known ↦ normalize_classes-IsClass cs kept h u (ground arith)
      | inr new ↦
          normalize_classes-IsClass cs (kept ++ (normalize py c ∷ []))
            (All-append (IsClass py) kept (normalize py c ∷ []) h
              ((normalize-normalize py c, word), tt))
            (unique_texts-snoc kept (normalize py c) u new) (ground arith)
    ]
  ]

-- A reset keeps a valid engine valid, whether it returns or raises.
pub reset-IsValid :
    {F : Type 0} (fl : Floats F) (py : Str) (e : PpeStabilityEngine F) (required : List Text)
    → IsValid fl py e
    → IsValid fl py (reset py e required).1
unfolding reset
reset-IsValid fl py e required v = elim (Result-cases (normalize_classes py [] required)) [
  | inl (x, raised) ↦ rw (reset, raised) v
  | inr (ks, returned) ↦
      let (classes, distinct) = normalize_classes-IsClass py required [] tt refl returned in
      rw (reset, returned)
        (record {
          minimum_positive = v.minimum_positive;
          minimum_fits = v.minimum_fits;
          absent_from_zero = v.absent_from_zero;
          absent_below_present = v.absent_below_present;
          present_to_one = v.present_to_one;
          classes = classes;
          distinct = distinct;
          fits = omega arith;
        })
]

-- A constructed engine is valid.
pub stability_init-IsValid :
    {F : Type 0} (fl : Floats F) (py : Str) (window minimum : ℕ) (present absent : F)
    {e : PpeStabilityEngine F}
    → stability_init fl window minimum present absent ≡ ok e
    → IsValid fl py e
unfolding stability_init
stability_init-IsValid {F} fl py window minimum present absent {e = e} h =
    let made : PpeStabilityEngine F = record {
      window_size = window;
      minimum_samples = minimum;
      present_ratio = present;
      absent_ratio = absent;
      required_classes = [];
      observations = [];
    } in
    let same : made ≡ e = ground arith in
    subst (λ x. IsValid fl py x) same
      (record {
        minimum_positive = ground arith;
        minimum_fits = ground arith;
        absent_from_zero = ground arith;
        absent_below_present = ground arith;
        present_to_one = ground arith;
        classes = tt;
        distinct = refl;
        fits = omega arith;
      })

normalize_classes_ok :
    (py : Str) (cs kept : List Text)
    → All (λ c. is_empty (normalize py c) ≡ false) cs
    → (ks : List Text) × (normalize_classes py kept cs ≡ ok ks)
unfolding normalize_classes
normalize_classes_ok py [] kept h = (kept, refl)
normalize_classes_ok py (c ∷ cs) kept h =
    let (ks, e) =
      normalize_classes_ok py cs
        (if mem_text (normalize py c) kept then kept else kept ++ (normalize py c ∷ [])) h.1 in
    (ks, rw (normalize_classes, h.0) e)

-- A reset for classes that are not blank returns.
pub reset_returns :
    {F : Type 0} (py : Str) (e : PpeStabilityEngine F) (required : List Text)
    → All (λ c. is_empty (normalize py c) ≡ false) required
    → (reset py e required).0 ≡ ok tt
unfolding reset
reset_returns py e required h =
    let (ks, returned) = normalize_classes_ok py required [] h in rw (reset, returned) refl
