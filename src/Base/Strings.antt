-- ===== src/Base/Strings.antt =====
-- A Python `str` as its code points, compared as Python compares texts, and the two `str` methods
-- that the program normalises with.
use Prim.Native.Nat.{ℕ}
use Prim.Native.Char.{code}
use Prim.Native.String.{String}
use mathlib.Core.Path.{◌≡◌, refl}
use mathlib.Core.Logic.{◌↔◌}
use mathlib.Core.Bool.{Bool, true, false, ◌&&◌}
use mathlib.Core.List.{List, [], ◌∷◌}
use native.Mathlib.Omega.{arith}
use identify.Base.Tests.{ltb, ◌==◌, if◌then◌else◌}

abbrev pub Text : Type 0
Text = List ℕ

abbrev pub codes : String → Text
codes String.[] = []
codes (String.◌∷◌ c s) = code c ∷ codes s

-- `s == t` of two texts
unfoldable pub text_eq : Text → Text → Bool
text_eq [] [] = true
text_eq [] (d ∷ t) = false
text_eq (c ∷ s) [] = false
text_eq (c ∷ s) (d ∷ t) = (c == d) && text_eq s t

pub text_eq_iff : (s t : Text) → (text_eq s t ≡ true) ↔ (s ≡ t)
unfolding text_eq
text_eq_iff [] [] = ground arith
text_eq_iff [] (d ∷ t) = ground arith
text_eq_iff (c ∷ s) [] = ground arith
text_eq_iff (c ∷ s) (d ∷ t) = ground (arith, text_eq_iff s t)

pub text_eq_refl : (s : Text) → text_eq s s ≡ true
text_eq_refl s = (text_eq_iff s s).1 refl

-- `s < t`: lexicographic on code points
unfoldable pub text_lt : Text → Text → Bool
text_lt s [] = false
text_lt [] (d ∷ t) = true
text_lt (c ∷ s) (d ∷ t) = if ltb c d then true else ((c == d) && text_lt s t)

-- an empty text is false in a condition
abbrev pub is_empty : Text → Bool
is_empty [] = true
is_empty (c ∷ s) = false

-- `str.strip` and `str.casefold`, which Python implements. `folded` says that a text that has been
-- stripped and folded is left alone by a second pass.
pub record Str : Type 0 where
  pub strip : Text → Text
  pub casefold : Text → Text
  pub stripped : (s : Text) → strip (strip s) ≡ strip s
  pub folded : (s : Text) → casefold (strip (casefold (strip s))) ≡ casefold (strip s)

-- `value.strip().casefold()`
unfoldable pub normalize : Str → Text → Text
normalize py s = py.casefold (py.strip s)

pub normalize-normalize : (py : Str) (s : Text) → normalize py (normalize py s) ≡ normalize py s
unfolding normalize
normalize-normalize py s = py.folded s

-- Texts without blanks and capitals, on which both methods do nothing.
abbrev pub plain_str : Str
plain_str = record { strip = λ s. s; casefold = λ s. s; stripped = λ s. refl; folded = λ s. refl }

pub text_lt-asym : (s t : Text) → text_lt s t ≡ true → text_lt t s ≡ false
unfolding text_lt
text_lt-asym [] [] h = ground arith
text_lt-asym [] (d ∷ t) h = refl
text_lt-asym (c ∷ s) [] h = ground arith
text_lt-asym (c ∷ s) (d ∷ t) h = ground (arith, text_lt-asym s t)

-- `not (s > t)` is transitive.
pub text_lt-negative :
    (s t u : Text) → text_lt t s ≡ false → text_lt u t ≡ false → text_lt u s ≡ false
unfolding text_lt
text_lt-negative [] t u h k = refl
text_lt-negative (c ∷ s) [] u h k = ground arith
text_lt-negative (c ∷ s) (d ∷ t) [] h k = ground arith
text_lt-negative (c ∷ s) (d ∷ t) (x ∷ u) h k = ground (arith, text_lt-negative s t u)
