-- ===== src/Base/Dict.antt =====
-- A Python dictionary in insertion order, keyed by texts.
use mathlib.Core.Path.{◌≡◌, refl, subst}
use mathlib.Core.Logic.{◌≢◌, inl, inr}
use mathlib.Core.Bool.{Bool, true, false}
use mathlib.Core.Option.{Option, none, some}
use mathlib.Core.List.{List, [], ◌∷◌, ◌++◌}
use native.Mathlib.Omega.{arith}
use Prim.Native.Nat.{ℕ, ◌+◌, ◌≤◌}
use identify.Base.Tests.{if◌then◌else◌, is_some, Bool-cases, Option-cases}
use identify.Base.Lists.{All}
use identify.Base.Strings.{Text, text_eq, text_eq_iff, text_eq_refl}

abbrev pub Dict {ℓ} : Type ℓ → Type ℓ
Dict V = List (Text × V)

module _ {ℓ} {V : Type ℓ} where
  abbrev pub lookup : Text → Dict V → Option V
  lookup k [] = none
  lookup k ((j, v) ∷ d) = if text_eq k j then some v else lookup k d

  -- `k in d`
  abbrev pub contains : Text → Dict V → Bool
  contains k d = is_some (lookup k d)

  -- `d[k] = v`
  abbrev pub insert : Text → V → Dict V → Dict V
  insert k v [] = (k, v) ∷ []
  insert k v ((j, w) ∷ d) = if text_eq k j then (j, v) ∷ d else (j, w) ∷ insert k v d

  pub lookup-insert :
      (j k : Text) (v : V) (d : Dict V)
      → lookup j (insert k v d) ≡ (if text_eq j k then some v else lookup j d)
  lookup-insert j k v [] = refl
  lookup-insert j k v ((i, w) ∷ d) =
      ground (arith, text_eq_iff k i, text_eq_iff j i, text_eq_iff j k, lookup-insert j k v d)

  pub lookup-insert_self : (k : Text) (v : V) (d : Dict V) → lookup k (insert k v d) ≡ some v
  lookup-insert_self k v d = ground (arith, lookup-insert k k v d, text_eq_refl k)

  -- No key stands twice.
  abbrev pub Distinct : Dict V → Type 0
  Distinct [] = Unit
  Distinct ((k, v) ∷ d) = (contains k d ≡ false) × Distinct d

  contains-insert :
      (j k : Text) (v : V) (d : Dict V)
      → contains j d ≡ false
      → j ≢ k
      → contains j (insert k v d) ≡ false
  contains-insert j k v d h ne = ground (arith, lookup-insert j k v d, text_eq_iff j k)

  pub insert-Distinct : (k : Text) (v : V) (d : Dict V) → Distinct d → Distinct (insert k v d)
  insert-Distinct k v [] h = (refl, tt)
  insert-Distinct k v ((j, w) ∷ d) h =
      ground
        (arith, text_eq_iff k j, text_eq_iff j k, contains-insert j k v d, insert-Distinct k v d)

  pub insert-insert : (k : Text) (v w : V) (d : Dict V) → insert k w (insert k v d) ≡ insert k w d
  insert-insert k v w [] = ground (arith, text_eq_refl k)
  insert-insert k v w ((j, u) ∷ d) = ground (arith, insert-insert k v w d)

  -- What holds of every entry, and of the entry written, holds of every entry after the write.
  pub All-insert {κ} :
      (P : V → Type κ) (k : Text) (v : V) (d : Dict V)
      → All (λ e. P e.1) d
      → P v
      → All (λ e. P e.1) (insert k v d)
  All-insert P k v [] h p = (p, tt)
  All-insert P k v ((j, u) ∷ d) h p = elim (Bool-cases (text_eq k j)) [
    | inl here ↦ rw here (p, h.1)
    | inr there ↦ rw there (h.0, All-insert P k v d h.1 p)
  ]

  pub All-lookup {κ} :
      (P : V → Type κ) (k : Text) {v : V} (d : Dict V)
      → All (λ e. P e.1) d
      → lookup k d ≡ some v
      → P v
  All-lookup P k [] h e = cc
  All-lookup P k {v} ((j, u) ∷ d) h e = elim (Bool-cases (text_eq k j)) [
    | inl here ↦ let same : u ≡ v = ground arith in subst P same h.0
    | inr there ↦ All-lookup P k d h.1 (ground arith)
  ]

  contains-middle : (k : Text) (v : V) (d rest : Dict V) → contains k (d ++ (k, v) ∷ rest) ≡ true
  contains-middle k v [] rest = ground (arith, text_eq_refl k)
  contains-middle k v ((j, u) ∷ d) rest = ground (arith, contains-middle k v d rest)

  -- A write to a key that is there replaces the value in its place.
  pub insert-middle :
      (k : Text) (v w : V) (d rest : Dict V)
      → Distinct (d ++ (k, v) ∷ rest)
      → insert k w (d ++ (k, v) ∷ rest) ≡ d ++ (k, w) ∷ rest
  insert-middle k v w [] rest h = ground (arith, text_eq_refl k)
  insert-middle k v w ((j, u) ∷ d) rest h =
      ground (arith, text_eq_iff k j, contains-middle k v d rest, insert-middle k v w d rest h.1)

  pub not-contains-prefix :
      (k : Text) (v : V) (d rest : Dict V) → Distinct (d ++ (k, v) ∷ rest) → contains k d ≡ false
  not-contains-prefix k v [] rest h = refl
  not-contains-prefix k v ((j, u) ∷ d) rest h =
      ground
        (arith, text_eq_iff k j, contains-middle k v d rest, not-contains-prefix k v d rest h.1)

  -- `d.pop(k, None)`
  abbrev pub remove : Text → Dict V → Dict V
  remove k [] = []
  remove k ((j, v) ∷ d) = if text_eq k j then d else (j, v) ∷ remove k d

  pub lookup-remove :
      (j k : Text) (d : Dict V) → text_eq j k ≡ false → lookup j (remove k d) ≡ lookup j d
  lookup-remove j k [] h = refl
  lookup-remove j k ((i, v) ∷ d) h =
      ground (arith, text_eq_iff k i, text_eq_iff j i, text_eq_iff j k, lookup-remove j k d h)

  -- In a dictionary without a key twice a key that is removed is gone.
  pub lookup-remove_if :
      (j k : Text) (d : Dict V)
      → Distinct d
      → lookup j (remove k d) ≡ (if text_eq j k then none else lookup j d)
  lookup-remove_if j k [] h = ground arith
  lookup-remove_if j k ((i, v) ∷ d) h =
      ground (arith, text_eq_iff k i, text_eq_iff j i, text_eq_iff j k, lookup-remove_if j k d h.1)

  lookup-remove-none : (j k : Text) (d : Dict V) → lookup j d ≡ none → lookup j (remove k d) ≡ none
  lookup-remove-none j k [] h = refl
  lookup-remove-none j k ((i, v) ∷ d) h = ground (arith, lookup-remove-none j k d)

  pub remove-Distinct : (k : Text) (d : Dict V) → Distinct d → Distinct (remove k d)
  remove-Distinct k [] h = tt
  remove-Distinct k ((j, v) ∷ d) h = elim (Option-cases (lookup j d)) [
    | inl gone ↦ ground (arith, lookup-remove-none j k d, remove-Distinct k d h.1)
    | inr (w, there) ↦ absurd (ground arith)
  ]

  pub All-remove {κ} :
      (P : V → Type κ) (k : Text) (d : Dict V) → All (λ e. P e.1) d → All (λ e. P e.1) (remove k d)
  All-remove P k [] h = tt
  All-remove P k ((j, v) ∷ d) h = elim (Bool-cases (text_eq k j)) [
    | inl here ↦ rw here h.1
    | inr there ↦ rw there (h.0, All-remove P k d h.1)
  ]

  -- the values that pass a test, counted
  abbrev pub count_values : (V → Bool) → Dict V → ℕ
  count_values p [] = 0
  count_values p ((j, v) ∷ d) = (if p v then 1 else 0) + count_values p d

  pub count_values-remove :
      (p : V → Bool) (k : Text) (d : Dict V) → count_values p (remove k d) ≤ count_values p d
  count_values-remove p k [] = omega arith
  count_values-remove p k ((j, v) ∷ d) = ground (arith, count_values-remove p k d)

  pub count_values-insert :
      (p : V → Bool) (k : Text) (v : V) (d : Dict V)
      → count_values p (insert k v d) ≤ (if p v then 1 else 0) + count_values p d
  count_values-insert p k v [] = ground arith
  count_values-insert p k v ((j, w) ∷ d) = ground (arith, count_values-insert p k v d)

  -- A write that changes no test's outcome for the key keeps the count.
  pub count_values-update :
      (p : V → Bool) (k : Text) (v w : V) (d : Dict V)
      → lookup k d ≡ some v
      → p w ≡ p v
      → count_values p (insert k w d) ≡ count_values p d
  count_values-update p k v w [] h e = absurd (ground arith)
  count_values-update p k v w ((j, u) ∷ d) h e = elim (Bool-cases (text_eq k j)) [
    | inl here ↦ let same : u ≡ v = ground arith in ground (arith, same)
    | inr there ↦ ground (arith, count_values-update p k v w d)
  ]
