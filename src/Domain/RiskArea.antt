-- ===== src/Domain/RiskArea.antt =====
-- 2identify_operador/app/domain/risk_area.py: points and polygons on the normalised frame.
pub mod Laws
use identify.Base.{
  ℕ, suc, ◌+◌, ◌==◌, Bool, true, false, not, ◌&&◌, ◌||◌, Option, none, some, List, [], ◌∷◌, all,
  any, length, ltb, leb, if◌then◌else◌,
}
use identify.Base.Result.{Result, ok, err, value_error, zero_division_error, ◌>>◌, raise_if}
use identify.Vision.Tracking.Defs.{Arithmetic, least, greatest, enumerate}

-- What the geometry uses of `float` beside its arithmetic; `epsilon` is the constant 1e-9.
pub record Plane (F : Type 0) : Type 0 where
  pub num : Arithmetic F
  pub abs : F → F
  pub eq : F → F → Bool
  pub of_int : ℕ → F
  pub epsilon : F

pub record NormalizedPoint (F : Type 0) : Type 0 where
  pub x : F
  pub y : F

pub record RiskAreaGeometry (F : Type 0) : Type 0 where
  pub vertices : List (NormalizedPoint F)

abbrev pub Edge : Type 0 → Type 0
Edge F = NormalizedPoint F × NormalizedPoint F

module _ {F : Type 0} where
  -- the edges from a vertex on, the last of which leads back to the first vertex
  abbrev pub edges_from : NormalizedPoint F → List (NormalizedPoint F) → List (Edge F)
  edges_from first [] = []
  edges_from first (v ∷ []) = (v, first) ∷ []
  edges_from first (v ∷ w ∷ vs) = (v, w) ∷ edges_from first (w ∷ vs)

  -- `_polygon_edges`
  unfoldable pub polygon_edges : List (NormalizedPoint F) → List (Edge F)
  polygon_edges [] = []
  polygon_edges (v ∷ vs) = edges_from v (v ∷ vs)

  -- `vertices[-1]` after a first vertex, and `vertices[:-1]`
  abbrev pub last_of : NormalizedPoint F → List (NormalizedPoint F) → NormalizedPoint F
  last_of v [] = v
  last_of v (w ∷ vs) = last_of w vs

  abbrev pub without_last : List (NormalizedPoint F) → List (NormalizedPoint F)
  without_last [] = []
  without_last (v ∷ []) = []
  without_last (v ∷ w ∷ vs) = v ∷ without_last (w ∷ vs)

module _ {F : Type 0} (pl : Plane F) where
  -- `a / b`
  abbrev pub divide : F → F → Result F
  divide a b = if pl.eq b pl.num.zero then err zero_division_error else ok (pl.num.div a b)

  -- `NormalizedPoint.__post_init__`
  unfoldable pub point_init : NormalizedPoint F → Result (NormalizedPoint F)
  point_init p = do
    raise_if (not (pl.num.is_finite p.x) || not (pl.num.is_finite p.y)) value_error
    raise_if
        (not (pl.num.le pl.num.zero p.x && pl.num.le p.x pl.num.one)
          || not (pl.num.le pl.num.zero p.y && pl.num.le p.y pl.num.one))
        value_error
    ok p

  abbrev pub same_point : NormalizedPoint F → NormalizedPoint F → Bool
  same_point p q = pl.eq p.x q.x && pl.eq p.y q.y

  -- the sum in `_signed_double_area`
  abbrev pub area_from : F → List (Edge F) → F
  area_from total [] = total
  area_from total ((current, following) ∷ edges) =
      area_from
        (pl.num.add total
          (pl.num.sub (pl.num.mul current.x following.y) (pl.num.mul following.x current.y)))
        edges

  -- `_signed_double_area`
  unfoldable pub signed_double_area : List (NormalizedPoint F) → F
  signed_double_area vertices = area_from pl.num.zero (polygon_edges vertices)

  -- `_orientation`
  abbrev pub orientation : NormalizedPoint F → NormalizedPoint F → NormalizedPoint F → F
  orientation start end point =
      pl.num.sub (pl.num.mul (pl.num.sub end.x start.x) (pl.num.sub point.y start.y))
        (pl.num.mul (pl.num.sub end.y start.y) (pl.num.sub point.x start.x))

  -- `_point_within_segment`
  unfoldable pub point_within_segment :
      NormalizedPoint F → NormalizedPoint F → NormalizedPoint F → Bool
  point_within_segment point start end =
      pl.num.le (pl.num.sub (least pl.num start.x end.x) pl.epsilon) point.x
      && pl.num.le point.x (pl.num.add (greatest pl.num start.x end.x) pl.epsilon)
      && pl.num.le (pl.num.sub (least pl.num start.y end.y) pl.epsilon) point.y
      && pl.num.le point.y (pl.num.add (greatest pl.num start.y end.y) pl.epsilon)

  -- an entry of the last loop of `_segments_intersect`
  abbrev pub touches : F → NormalizedPoint F → NormalizedPoint F → NormalizedPoint F → Bool
  touches turn point start end =
      pl.num.le (pl.abs turn) pl.epsilon && point_within_segment point start end

  -- `_segments_intersect`
  unfoldable pub segments_intersect : Edge F → Edge F → Bool
  segments_intersect (first_start, first_end) (second_start, second_end) =
      let first_orientation = orientation first_start first_end second_start in
      let second_orientation = orientation first_start first_end second_end in
      let third_orientation = orientation second_start second_end first_start in
      let fourth_orientation = orientation second_start second_end first_end in
      (pl.num.lt (pl.num.mul first_orientation second_orientation) (pl.num.neg pl.epsilon)
        && pl.num.lt (pl.num.mul third_orientation fourth_orientation) (pl.num.neg pl.epsilon))
      || touches first_orientation second_start first_start first_end
      || touches second_orientation second_end first_start first_end
      || touches third_orientation first_start second_start second_end
      || touches fourth_orientation first_end second_start second_end

  -- the inner loop of `_has_self_intersection`, over the edges after the first one
  unfoldable pub meets_later : ℕ → ℕ → Edge F → List (ℕ × Edge F) → Bool
  meets_later edge_count first_index first [] = false
  meets_later edge_count first_index first ((second_index, second) ∷ rest) =
      (not (
          (second_index == first_index + 1)
          || ((first_index == 0) && (second_index + 1 == edge_count)))
        && segments_intersect first second)
      || meets_later edge_count first_index first rest

  -- its outer loop
  unfoldable pub meets_from : ℕ → List (ℕ × Edge F) → Bool
  meets_from edge_count [] = false
  meets_from edge_count ((index, edge) ∷ rest) =
      meets_later edge_count index edge rest || meets_from edge_count rest

  -- `_has_self_intersection`
  unfoldable pub has_self_intersection : List (NormalizedPoint F) → Bool
  has_self_intersection vertices =
      let edges = polygon_edges vertices in meets_from (length edges) (enumerate 0 edges)

  -- `len(set(vertices)) == len(vertices)`
  abbrev pub unique_points : List (NormalizedPoint F) → Bool
  unique_points [] = true
  unique_points (p ∷ ps) = not (any (λ q. same_point p q) ps) && unique_points ps

  -- the vertices without one that closes the polygon
  abbrev pub opened : List (NormalizedPoint F) → List (NormalizedPoint F)
  opened [] = []
  opened (v ∷ vs) =
      if leb 2 (length (v ∷ vs)) && same_point v (last_of v vs)
      then without_last (v ∷ vs)
      else v ∷ vs

  -- `RiskAreaGeometry.__post_init__`
  unfoldable pub geometry_init : RiskAreaGeometry F → Result (RiskAreaGeometry F)
  geometry_init g = do
    let vertices = opened g.vertices
    raise_if (ltb (length vertices) 3) value_error
    raise_if (not (unique_points vertices)) value_error
    raise_if (pl.num.le (pl.abs (signed_double_area vertices)) pl.epsilon) value_error
    raise_if (has_self_intersection vertices) value_error
    ok (record { vertices = vertices })
