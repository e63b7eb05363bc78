-- ===== src/Engine/RiskArea/Points.antt =====
-- `classify_point` of 2identify_operador/app/engine/risk_area.py against the even-odd rule.
use identify.Base.{
  ℕ, zero, suc, ◌+◌, ◌≡◌, refl, sym, ap, ◌∙◌, Bool, true, false, not, ◌&&◌, List, [], ◌∷◌, any,
  count_if, arith, if◌then◌else◌, Bool-cases, inl, inr,
}
use mathlib.Core.Path.{subst}
use identify.Base.Result.{ok}
use identify.Domain.RiskArea.{Plane, NormalizedPoint, RiskAreaGeometry, Edge, polygon_edges}
use identify.Engine.RiskArea.Defs.{
  RiskAreaPointRelation, outside, boundary, inside, differ, point_on_segment,
  crosses_horizontal_ray, classify_edges, classify_point,
}

-- Two numbers on different sides of a third one have a difference that is not zero.
abbrev pub HasGaps : {F : Type 0} → Plane F → Type 0
HasGaps {F} pl =
    (p s e : F)
    → differ (pl.num.lt p s) (pl.num.lt p e) ≡ true
    → pl.eq (pl.num.sub e s) pl.num.zero ≡ false

abbrev pub is_odd : ℕ → Bool
is_odd zero = false
is_odd (suc n) = not (is_odd n)

differ-is_odd : (a : Bool) (n : ℕ) → differ (not a) (is_odd n) ≡ differ a (is_odd (1 + n))
differ-is_odd a n =
    let next : 1 + n ≡ suc n = omega arith in
    subst (λ k. differ (not a) (is_odd n) ≡ differ a (is_odd k)) (sym next) (flip a (is_odd n))
  where
    flip : (a b : Bool) → differ (not a) b ≡ differ a (not b)
    flip true true = refl
    flip true false = refl
    flip false true = refl
    flip false false = refl

module _ {F : Type 0} (pl : Plane F) (point : NormalizedPoint F) where
  -- the edge touches the point
  abbrev pub touched : Edge F → Bool
  touched edge = point_on_segment pl point edge.0 edge.1

  -- where the horizontal line through the point meets the line of the edge
  abbrev ray_x : Edge F → F
  ray_x (start, end) = pl.num.add start.x (
      pl.num.div (pl.num.mul (pl.num.sub point.y start.y) (pl.num.sub end.x start.x))
        (pl.num.sub end.y start.y))

  -- the ray from the point to the right crosses the edge
  abbrev pub crossed : Edge F → Bool
  crossed (start, end) =
      crosses_horizontal_ray pl point (start, end) && pl.num.lt point.x (ray_x (start, end))

  -- the even-odd rule for a point that no edge touches
  abbrev pub even_odd : List (Edge F) → RiskAreaPointRelation
  even_odd edges =
      if any touched edges
      then boundary
      else if is_odd (count_if crossed edges)
      then inside
      else outside

  abbrev continued : List (Edge F) → Bool → RiskAreaPointRelation
  continued edges is_inside =
      if any touched edges
      then boundary
      else if differ is_inside (is_odd (count_if crossed edges))
      then inside
      else outside

  classify_edges_lem :
      HasGaps pl
      → (edges : List (Edge F)) (is_inside : Bool)
      → classify_edges pl point edges is_inside ≡ ok (continued edges is_inside)
  unfolding classify_edges
  classify_edges_lem gaps [] true = refl
  classify_edges_lem gaps [] false = refl
  classify_edges_lem gaps ((start, end) ∷ edges) is_inside =
      let same : 0 + count_if crossed edges ≡ count_if crossed edges = omega arith in
      elim (Bool-cases (touched (start, end))) [
        | inl touch ↦ rw touch refl
        | inr free ↦ elim (Bool-cases (crosses_horizontal_ray pl point (start, end))) [
          | inl cross ↦
              let gap = gaps point.y start.y end.y cross in
              elim (Bool-cases (pl.num.lt point.x (ray_x (start, end)))) [
                | inl right ↦
                    rw (free, cross, gap, right)
                      (classify_edges_lem gaps edges (not is_inside)
                        ∙ ap
                            (λ b. ok (
                              if any touched edges
                              then boundary
                              else if b
                              then inside
                              else outside))
                            (differ-is_odd is_inside (count_if crossed edges)))
                | inr left ↦
                    rw (free, cross, gap, left, same) (classify_edges_lem gaps edges is_inside)
              ]
          | inr miss ↦ rw (free, miss, same) (classify_edges_lem gaps edges is_inside)
        ]
      ]

  -- When numbers on different sides of a third one have a difference that is not zero, the
  -- classification of a point returns boundary exactly if an edge touches it, and otherwise inside
  -- exactly if the ray to its right crosses an odd number of edges.
  pub classify_point_lem :
      HasGaps pl
      → (geometry : RiskAreaGeometry F)
      → classify_point pl geometry point ≡ ok (even_odd (polygon_edges geometry.vertices))
  unfolding classify_point
  classify_point_lem gaps geometry = classify_edges_lem gaps (polygon_edges geometry.vertices) false
