-- ===== src/Domain/RiskArea/Laws.antt =====
-- `RiskAreaGeometry` of 2identify_operador/app/domain/risk_area.py under a second construction.
use identify.Base.{◌≤◌, ◌≡◌, refl, true, false, List, [], ◌∷◌, any, length, arith, ltb}
use mathlib.Core.Path.{subst}
use identify.Base.Result.{ok}
use identify.Domain.RiskArea.{
  Plane, NormalizedPoint, RiskAreaGeometry, same_point, unique_points, last_of, opened,
  geometry_init,
}

module _ {F : Type 0} (pl : Plane F) where
  other_last :
      (p v : NormalizedPoint F) (vs : List (NormalizedPoint F))
      → any (λ q. same_point pl p q) (v ∷ vs) ≡ false
      → same_point pl p (last_of v vs) ≡ false
  other_last p v [] h = ground arith
  other_last p v (w ∷ vs) h = other_last p w vs (ground arith)

  opened_open : (vs : List (NormalizedPoint F)) → unique_points pl vs ≡ true → opened pl vs ≡ vs
  opened_open [] h = refl
  opened_open (v ∷ []) h = refl
  opened_open (v ∷ w ∷ vs) h =
      let other : any (λ q. same_point pl v q) (w ∷ vs) ≡ false = ground arith in
      ground (arith, other_last v w vs other)

  -- A polygon that the constructor returns, without the vertex that closed it, has at least three
  -- distinct vertices, and the constructor accepts it again without a change.
  pub geometry_init_idempotent :
      (g : RiskAreaGeometry F) {accepted : RiskAreaGeometry F}
      → geometry_init pl g ≡ ok accepted
      → (geometry_init pl accepted ≡ ok accepted)
        × (3 ≤ length accepted.vertices)
        × (unique_points pl accepted.vertices ≡ true)
  unfolding geometry_init
  geometry_init_idempotent g {accepted = accepted} h =
      let vs = opened pl g.vertices in
      let made : RiskAreaGeometry F = record { vertices = vs } in
      let enough : ltb (length vs) 3 ≡ false = ground arith in
      let distinct : unique_points pl vs ≡ true = ground arith in
      let same : made ≡ accepted = ground arith in
      subst
        (λ x.
          (geometry_init pl x ≡ ok x)
          × (3 ≤ length x.vertices)
          × (unique_points pl x.vertices ≡ true))
        same (ground (arith, opened_open vs distinct), ground arith, distinct)
