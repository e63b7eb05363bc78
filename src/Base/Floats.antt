-- ===== src/Base/Floats.antt =====
-- The floating-point numbers that a component compares, with the laws that it relies on: those of
-- IEEE 754 numbers other than NaN, and of a division that rounds to nearest.
use Prim.Native.Nat.{ℕ, ◌≤◌, ◌<◌}
use mathlib.Core.Path.{◌≡◌}
use mathlib.Core.Bool.{Bool, true, false}

pub record Floats (F : Type 0) : Type 0 where
  pub zero : F
  pub one : F
  -- `x <= y`
  pub le : F → F → Bool
  -- `n / m` of two integers
  pub divide : ℕ → ℕ → F
  pub le_trans : (x y z : F) → le x y ≡ true → le y z ≡ true → le x z ≡ true
  pub le_total : (x y : F) → le x y ≡ false → le y x ≡ true
  pub divide_none : (m : ℕ) → 0 < m → divide 0 m ≡ zero
  pub divide_all : (m : ℕ) → 0 < m → divide m m ≡ one
  pub divide_mono : (n k m : ℕ) → 0 < m → n ≤ k → le (divide n m) (divide k m) ≡ true
