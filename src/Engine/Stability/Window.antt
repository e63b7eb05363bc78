-- ===== src/Engine/Stability/Window.antt =====
-- The window and the history of frames: 2identify_operador/app/engine/ppe_stability.py.
use identify.Base.{
  ℕ, zero, suc, ◌-◌, ◌≤◌, ◌<◌, ◌≡◌, refl, sym, ap, ◌∙◌, true, false, List, [], ◌∷◌, ◌++◌, map,
  arith, length, length-append, ltb, Bool-cases, inl, inr, Text, Str,
}
use mathlib.Core.List.{append_assoc, append-nil}
use identify.Base.Floats.{Floats}
use identify.Engine.Stability.Defs.{PpeStabilityEngine, push, frame_classes, observe}

-- the last `n` elements
abbrev pub drop {ℓ} : {A : Type ℓ} → ℕ → List A → List A
drop zero xs = xs
drop (suc n) [] = []
drop (suc n) (x ∷ xs) = drop n xs

unfoldable pub last_of {ℓ} : {A : Type ℓ} → ℕ → List A → List A
last_of n xs = drop (length xs - n) xs

module _ {ℓ} {A : Type ℓ} where
  drop-append :
      (n : ℕ) (xs : List A) (x : A)
      → n ≤ length xs
      → drop n (xs ++ (x ∷ [])) ≡ drop n xs ++ (x ∷ [])
  drop-append zero xs x h = refl
  drop-append (suc n) [] x h = absurd (omega arith)
  drop-append (suc n) (y ∷ ys) x h = drop-append n ys x (omega arith)

  drop-suc : (n : ℕ) (xs : List A) (y : A) (ys : List A) → drop n xs ≡ y ∷ ys → drop (suc n) xs ≡ ys
  drop-suc zero [] y ys h = cc
  drop-suc zero (x ∷ xs) y ys h = cc
  drop-suc (suc n) [] y ys h = cc
  drop-suc (suc n) (x ∷ xs) y ys h = drop-suc n xs y ys h

  length-drop : (n : ℕ) (xs : List A) → length (drop n xs) ≡ length xs - n
  length-drop zero xs = omega arith
  length-drop (suc n) [] = omega arith
  length-drop (suc n) (x ∷ xs) = omega (arith, length-drop n xs)

  -- Pushing onto the end of a history is the end of the longer history.
  pub push-last_of :
      (bound : ℕ) (history : List A) (x : A)
      → 0 < bound
      → push bound (last_of bound history) x ≡ last_of bound (history ++ (x ∷ []))
  unfolding push last_of
  push-last_of bound history x h = elim (Bool-cases (ltb (length history) bound)) [
    | inl room ↦ short history room
    | inr full ↦ long (drop (length history - bound) history) refl full
  ]
    where
      short :
          (xs : List A)
          → ltb (length xs) bound ≡ true
          → push bound (drop (length xs - bound) xs) x
            ≡ drop (length (xs ++ (x ∷ [])) - bound) (xs ++ (x ∷ []))
      short [] room =
          let none_dropped : 0 - bound ≡ 0 = omega arith in
          let none_left : 1 - bound ≡ 0 = omega arith in rw (none_dropped, none_left)
      short (y ∷ ys) room =
          let none_dropped : length (y ∷ ys) - bound ≡ 0 = ground arith in
          let none_left : length ((y ∷ ys) ++ (x ∷ [])) - bound ≡ 0 =
            ground (arith, length-append (y ∷ ys) (x ∷ [])) in
          rw (none_dropped, none_left, room)

      long :
          (window : List A)
          → drop (length history - bound) history ≡ window
          → ltb (length history) bound ≡ false
          → push bound (drop (length history - bound) history) x
            ≡ drop (length (history ++ (x ∷ [])) - bound) (history ++ (x ∷ []))
      long [] e full =
          absurd (ground (arith, length-drop (length history - bound) history, ap length e))
      long (y ∷ ys) e full =
          let n = length history - bound in
          let size : length (y ∷ ys) ≡ bound = ground (arith, length-drop n history, ap length e) in
          let more : length (history ++ (x ∷ [])) - bound ≡ suc n =
            ground (arith, length-append history (x ∷ [])) in
          let filled : ltb (length (y ∷ ys)) bound ≡ false = ground arith in
          rw (e, filled, more)
            (sym (
              drop-append (suc n) history x (ground arith)
              ∙ ap (λ zs. zs ++ (x ∷ [])) (drop-suc n history y ys e)))

module _ {F : Type 0} (fl : Floats F) (py : Str) where
  -- the engine after a sequence of frames
  unfoldable pub watch : PpeStabilityEngine F → List (List Text) → PpeStabilityEngine F
  watch e [] = e
  watch e (frame ∷ frames) = watch (observe fl py e frame).1 frames

  watch-history :
      (e : PpeStabilityEngine F) (history frames : List (List Text))
      → 0 < e.window_size
      → e.observations ≡ last_of e.window_size history
      → (watch e frames).observations
        ≡ last_of e.window_size (history ++ map (frame_classes py) frames)
  unfolding watch observe
  watch-history e history [] h eq = eq ∙ ap (last_of e.window_size) (sym (append-nil history))
  watch-history e history (frame ∷ frames) h eq =
      watch-history (observe fl py e frame).1 (history ++ (frame_classes py frame ∷ [])) frames h (
        ap (λ w. push e.window_size w (frame_classes py frame)) eq
        ∙ push-last_of e.window_size history (frame_classes py frame) h)
      ∙ ap (last_of e.window_size)
          (append_assoc history (frame_classes py frame ∷ []) (map (frame_classes py) frames))

  -- From an empty window of positive size on, the window after any frames holds the last of the
  -- normalised frames, as many as its size, or all of them.
  pub watch-last_of :
      (e : PpeStabilityEngine F) (frames : List (List Text))
      → 0 < e.window_size
      → e.observations ≡ []
      → (watch e frames).observations ≡ last_of e.window_size (map (frame_classes py) frames)
  unfolding last_of
  watch-last_of e frames h empty = watch-history e [] frames h (empty ∙ ground arith)
