-- ===== src/Engine/Ergonomics/Keys.antt =====
-- The keys of the violations of 2identify_operador/app/engine/ergonomics.py, sorted.
use identify.Base.{
  ◌≡◌, refl, false, some, List, [], ◌∷◌, map, arith, All, All-imp, Bool-cases, inl, inr, Text,
  text_eq, text_eq_iff, text_eq_refl, text_lt,
}
use identify.Base.Dict.{Dict, Distinct, lookup, contains}
use identify.Base.Sort.{sorted, insert_sorted, All-insert_sorted, All-sorted}
use identify.Domain.Alert.{SafetyViolation}

-- No text stands twice.
abbrev pub AreDistinct : List Text → Type 0
AreDistinct [] = Unit
AreDistinct (k ∷ ks) = All (λ j. text_eq k j ≡ false) ks × AreDistinct ks

insert_sorted-AreDistinct :
    (k : Text) (ks : List Text)
    → All (λ j. text_eq k j ≡ false) ks
    → AreDistinct ks
    → AreDistinct (insert_sorted text_lt k ks)
unfolding insert_sorted
insert_sorted-AreDistinct k [] h d = (tt, tt)
insert_sorted-AreDistinct k (j ∷ ks) h d =
    let other : text_eq j k ≡ false = ground (arith, h.0, text_eq_iff k j, text_eq_iff j k) in
    elim (Bool-cases (text_lt j k)) [
      | inl later ↦ rw later (
        All-insert_sorted text_lt (λ i. text_eq j i ≡ false) k ks other d.0,
        insert_sorted-AreDistinct k ks h.1 d.1,
      )
      | inr here ↦ rw here (h, d)
    ]

pub sorted-AreDistinct : (ks : List Text) → AreDistinct ks → AreDistinct (sorted text_lt ks)
unfolding sorted
sorted-AreDistinct [] d = tt
sorted-AreDistinct (k ∷ ks) d =
    insert_sorted-AreDistinct k (sorted text_lt ks)
      (All-sorted text_lt (λ j. text_eq k j ≡ false) ks d.0) (sorted-AreDistinct ks d.1)

keys_apart :
    (k : Text) (found : Dict SafetyViolation)
    → contains k found ≡ false
    → All (λ j. text_eq k j ≡ false) (map (λ entry. entry.0) found)
keys_apart k [] h = tt
keys_apart k ((j, v) ∷ found) h = elim (Bool-cases (text_eq k j)) [
  | inl here ↦ absurd (ground arith)
  | inr there ↦ (there, keys_apart k found (ground arith))
]

pub keys-AreDistinct :
    (found : Dict SafetyViolation) → Distinct found → AreDistinct (map (λ entry. entry.0) found)
keys-AreDistinct [] d = tt
keys-AreDistinct ((k, v) ∷ found) d = (keys_apart k found d.0, keys-AreDistinct found d.1)

abbrev pub Known : Dict SafetyViolation → Text → Type 0
Known found k = (w : SafetyViolation) × (lookup k found ≡ some w)

Known-later :
    (j k : Text) (v : SafetyViolation) (found : Dict SafetyViolation)
    → Known found k
    → Known ((j, v) ∷ found) k
Known-later j k v found (w, h) = elim (Bool-cases (text_eq k j)) [
  | inl here ↦ rw here (v, refl)
  | inr there ↦ rw there (w, h)
]

pub keys-Known : (found : Dict SafetyViolation) → All (Known found) (map (λ entry. entry.0) found)
keys-Known [] = tt
keys-Known ((k, v) ∷ found) = (
  (v, rw (text_eq_refl k) refl),
  All-imp (Known found) (Known ((k, v) ∷ found)) (λ j h. Known-later k j v found h)
      (map (λ entry. entry.0) found) (keys-Known found),
)
