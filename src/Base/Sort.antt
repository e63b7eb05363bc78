-- ===== src/Base/Sort.antt =====
-- `sorted`, which is stable, by a strict order on the keys: an insertion sort.
use mathlib.Core.Path.{◌≡◌, subst}
use mathlib.Core.Bool.{Bool, true, false}
use mathlib.Core.Logic.{inl, inr}
use mathlib.Core.List.{List, [], ◌∷◌, Perm}
use mathlib.Core.List.Perm
use identify.Base.Tests.{if◌then◌else◌, Bool-cases}
use identify.Base.Lists.{All}

module _ {ℓ} {A : Type ℓ} (lt : A → A → Bool) where
  unfoldable pub insert_sorted : A → List A → List A
  insert_sorted x [] = x ∷ []
  insert_sorted x (y ∷ ys) = if lt y x then y ∷ insert_sorted x ys else x ∷ y ∷ ys

  unfoldable pub sorted : List A → List A
  unfolding insert_sorted
  sorted [] = []
  sorted (x ∷ xs) = insert_sorted x (sorted xs)

  -- What holds of every element holds of every element of the sorted list.
  pub All-insert_sorted {κ} :
      (P : A → Type κ) (x : A) (xs : List A) → P x → All P xs → All P (insert_sorted x xs)
  unfolding insert_sorted
  All-insert_sorted P x [] p h = (p, tt)
  All-insert_sorted P x (y ∷ ys) p h = elim (Bool-cases (lt y x)) [
    | inl later ↦ rw later (h.0, All-insert_sorted P x ys p h.1)
    | inr here ↦ rw here (p, h)
  ]

  pub All-sorted {κ} : (P : A → Type κ) (xs : List A) → All P xs → All P (sorted xs)
  unfolding sorted
  All-sorted P [] h = tt
  All-sorted P (x ∷ xs) h = All-insert_sorted P x (sorted xs) h.0 (All-sorted P xs h.1)

  All-insert_sorted_inv {κ} :
      (P : A → Type κ) (x : A) (xs : List A) → All P (insert_sorted x xs) → P x × All P xs
  unfolding insert_sorted
  All-insert_sorted_inv P x [] h = h
  All-insert_sorted_inv P x (y ∷ ys) h = elim (Bool-cases (lt y x)) [
    | inl later ↦
        let k : All P (y ∷ insert_sorted x ys) =
          subst (λ b. All P (if b then y ∷ insert_sorted x ys else x ∷ y ∷ ys)) later h in
        let (here, rest) = All-insert_sorted_inv P x ys k.1 in (here, (k.0, rest))
    | inr earlier ↦ subst (λ b. All P (if b then y ∷ insert_sorted x ys else x ∷ y ∷ ys)) earlier h
  ]

  pub All-sorted_inv {κ} : (P : A → Type κ) (xs : List A) → All P (sorted xs) → All P xs
  unfolding sorted
  All-sorted_inv P [] h = tt
  All-sorted_inv P (x ∷ xs) h =
      let (here, rest) = All-insert_sorted_inv P x (sorted xs) h in (here, All-sorted_inv P xs rest)

  insert_sorted-perm : (x : A) (xs : List A) → Perm (insert_sorted x xs) (x ∷ xs)
  unfolding insert_sorted
  insert_sorted-perm x [] = Perm.refl (x ∷ [])
  insert_sorted-perm x (y ∷ ys) = elim (Bool-cases (lt y x)) [
    | inl later ↦ rw later (Perm.trans (Perm.cons y (insert_sorted-perm x ys)) (Perm.swap x y ys))
    | inr here ↦ rw here (Perm.refl (x ∷ y ∷ ys))
  ]

  pub sorted-perm : (xs : List A) → Perm (sorted xs) xs
  unfolding sorted
  sorted-perm [] = Perm.refl []
  sorted-perm (x ∷ xs) =
      Perm.trans (insert_sorted-perm x (sorted xs)) (Perm.cons x (sorted-perm xs))

  -- Each element stands not after the next one.
  abbrev pub IsSorted : List A → Type 0
  IsSorted [] = Unit
  IsSorted (x ∷ xs) = All (λ y. lt y x ≡ false) xs × IsSorted xs

  -- A sorted list, for an order that is asymmetric and whose negation is transitive.
  module _ (asym : (x y : A) → lt x y ≡ true → lt y x ≡ false)
      (negative : (x y z : A) → lt y x ≡ false → lt z y ≡ false → lt z x ≡ false) where
    above :
        (x y : A)
        → lt y x ≡ false
        → (zs : List A) → All (λ z. lt z y ≡ false) zs
        → All (λ z. lt z x ≡ false) zs
    above x y h [] k = tt
    above x y h (z ∷ zs) k = (negative x y z h k.0, above x y h zs k.1)

    insert_sorted-IsSorted : (x : A) (xs : List A) → IsSorted xs → IsSorted (insert_sorted x xs)
    unfolding insert_sorted
    insert_sorted-IsSorted x [] h = (tt, tt)
    insert_sorted-IsSorted x (y ∷ ys) h = elim (Bool-cases (lt y x)) [
      | inl later ↦ rw later (
        All-insert_sorted (λ z. lt z y ≡ false) x ys (asym y x later) h.0,
        insert_sorted-IsSorted x ys h.1,
      )
      | inr here ↦ rw here ((here, above x y here ys h.0), h)
    ]

    pub sorted-IsSorted : (xs : List A) → IsSorted (sorted xs)
    unfolding sorted
    sorted-IsSorted [] = tt
    sorted-IsSorted (x ∷ xs) = insert_sorted-IsSorted x (sorted xs) (sorted-IsSorted xs)
