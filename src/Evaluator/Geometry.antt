-- ===== src/Evaluator/Geometry.antt =====
-- Point in polygon, distance to a ring and altitude deviation: internal/evaluator/evaluator.go.
use aero_arc_conformance.Prelude.{Bool, false, not, ◌&&◌, ltb, if◌then◌else◌, List, [], ◌∷◌, length}
use aero_arc_conformance.Domain.Float.{
  Float64, Arithmetic, float_lt, negate, zero_float, one_float, infinity, pi, degrees_180,
}
use aero_arc_conformance.Domain.Assignment.{Point, Volume, Observation}

-- 111132.0 and 111320.0, the metres of a degree.
abbrev lat_scale : Float64
lat_scale = record { bits = 0x40fb21c000000000 }

abbrev lon_scale_equator : Float64
lon_scale_equator = record { bits = 0x40fb2d8000000000 }

abbrev last_or : Point → List Point → Point
last_or p [] = p
last_or p (q ∷ ring) = last_or q ring

abbrev xor_bool : Bool → Bool → Bool
xor_bool a b = if a then not b else b

module _ (ar : Arithmetic) where
  open ar use {plus, minus, times, divided_by, cos, hypot}

  -- The ray from (x, y) crosses the edge from `j` to `i`.
  unfoldable pub crosses : Float64 → Float64 → Point → Point → Bool
  crosses x y i j =
      xor_bool (float_lt y i.latitude) (float_lt y j.latitude)
      && float_lt x (
          plus
            (divided_by (times (minus j.longitude i.longitude) (minus y i.latitude))
              (minus j.latitude i.latitude))
            i.longitude)

  -- The loop over the ring; `j` is the vertex before the next one.
  unfoldable pub crossings : Float64 → Float64 → Point → List Point → Bool → Bool
  unfolding crosses
  crossings x y j [] inside = inside
  crossings x y j (i ∷ ring) inside =
      crossings x y i ring (if crosses x y i j then not inside else inside)

  unfoldable pub point_in_polygon : Float64 → Float64 → List Point → Bool
  unfolding crossings
  point_in_polygon x y [] = false
  point_in_polygon x y (p ∷ ring) =
      if ltb (length (p ∷ ring)) 3 then false else crossings x y (last_or p ring) (p ∷ ring) false

  -- The distance from the observation, at the origin, to the segment from `i` to `j`.
  unfoldable pub segment_distance : Observation → Point → Point → Float64
  segment_distance o i j =
      let lon_scale =
        times lon_scale_equator (cos (divided_by (times o.latitude pi) degrees_180)) in
      let ax = times (minus i.longitude o.longitude) lon_scale in
      let ay = times (minus i.latitude o.latitude) lat_scale in
      let bx = times (minus j.longitude o.longitude) lon_scale in
      let by = times (minus j.latitude o.latitude) lat_scale in
      let dx = minus bx ax in
      let dy = minus by ay in
      let denom = plus (times dx dx) (times dy dy) in
      let raw = divided_by (negate (plus (times ax dx) (times ay dy))) denom in
      let clamped =
        if float_lt raw zero_float
        then zero_float
        else if float_lt one_float raw
        then one_float
        else raw in
      let t = if float_lt zero_float denom then clamped else zero_float in
      hypot (plus ax (times t dx)) (plus ay (times t dy))

  abbrev next_or : Point → List Point → Point
  next_or first [] = first
  next_or first (p ∷ ring) = p

  -- The loop over the ring's segments; the last one closes the ring at `first`.
  unfoldable pub ring_distance : Observation → Point → List Point → Float64 → Float64
  ring_distance o first [] best = best
  ring_distance o first (i ∷ ring) best =
      let distance = segment_distance o i (next_or first ring) in
      ring_distance o first ring (if float_lt distance best then distance else best)

  unfoldable pub distance_to_ring_meters : Observation → List Point → Float64
  distance_to_ring_meters o [] = infinity
  distance_to_ring_meters o (p ∷ ring) =
      if ltb (length (p ∷ ring)) 2 then infinity else ring_distance o p (p ∷ ring) infinity

  unfoldable pub altitude_deviation_from_volume : Observation → Volume → Float64
  altitude_deviation_from_volume o volume =
      if float_lt o.altitude_m volume.altitude_lower_m
      then minus volume.altitude_lower_m o.altitude_m
      else if float_lt volume.altitude_upper_m o.altitude_m
      then minus o.altitude_m volume.altitude_upper_m
      else zero_float
