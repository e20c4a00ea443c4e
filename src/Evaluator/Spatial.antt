-- ===== src/Evaluator/Spatial.antt =====
-- The volumes and the evidence of one observation: `Evaluate` and `terminalOverrunVolumes` of
-- internal/evaluator/evaluator.go.
use aero_arc_conformance.Prelude.{
  Bool, true, false, not, ◌&&◌, ◌||◌, ◌==◌, nat_eq, if◌then◌else◌, Option, none, some, List, [],
  ◌∷◌, is_empty, keep_if,
}
use aero_arc_conformance.Domain.Float.{
  Float64, Arithmetic, float_lt, float_le, max_float, abs, zero_float, infinity,
}
use aero_arc_conformance.Domain.Time.{Time, before, after, sub, is_zero}
use aero_arc_conformance.Domain.Types.{same_reference}
use aero_arc_conformance.Domain.Assignment.{Volume, Assignment, Observation}
use aero_arc_conformance.Evaluator.Policy.{Policy}
use aero_arc_conformance.Evaluator.Geometry.{
  point_in_polygon, distance_to_ring_meters, altitude_deviation_from_volume,
}

pub record Evidence : Type 0 where
  pub known : Bool
  pub breached : Bool
  pub deviation : Float64

-- The map `evidenceByType`.
pub record EvidenceByType : Type 0 where
  pub lateral : Option Evidence
  pub vertical : Option Evidence
  pub temporal : Option Evidence

-- evidence{known: true}.
abbrev pub within : Evidence
within = record { known = true; breached = false; deviation = zero_float }

unfoldable pub clamp_time : Time → Time → Time → Time
clamp_time value lower upper =
    if before value lower then lower else if after value upper then upper else value

unfoldable pub outside_window : Time → Time → Time → Bool
outside_window t from until = before t from || not (before t until)

unfoldable pub is_active_volume : Time → Volume → Bool
unfolding outside_window
is_active_volume t v = not (outside_window t v.starts_at v.ends_at)

unfoldable pub active_volumes : Assignment → Time → List Volume
active_volumes a t = keep_if (is_active_volume t) a.volumes

-- `latestEnd`, `latestIndex` (the volume itself) and `ambiguous`.
pub record Latest : Type 0 where
  pub end : Time
  pub volume : Option Volume
  pub ambiguous : Bool

unfoldable pub latest_step : Latest → Volume → Latest
latest_step l v =
    if is_zero l.end || after v.ends_at l.end
    then record { end = v.ends_at; volume = some v; ambiguous = false }
    else if v.ends_at == l.end
    then record l { ambiguous = true }
    else l

unfoldable pub latest_of : Latest → List Volume → Latest
latest_of l [] = l
latest_of l (v ∷ volumes) = latest_of (latest_step l v) volumes

abbrev pub no_latest : Latest
no_latest = record { end = 0; volume = none; ambiguous = false }

abbrev pub overrun : Latest → Time → Option Volume → List Volume
overrun l t none = []
overrun l t (some v) = if before t l.end || l.ambiguous then [] else v ∷ []

unfoldable pub terminal_overrun_volumes : Assignment → Time → List Volume
unfolding outside_window
terminal_overrun_volumes a t =
    if outside_window t a.effective_from a.effective_until
    then []
    else let l = latest_of no_latest a.volumes in overrun l t l.volume

unfoldable pub spatial_volumes : Assignment → Time → List Volume
unfolding active_volumes
spatial_volumes a t =
    if is_empty (active_volumes a t) then terminal_overrun_volumes a t else active_volumes a t

-- The variables of the loop over the spatial volumes.
pub record Scan : Type 0 where
  pub best_score : Float64
  pub best_lateral : Float64
  pub best_vertical : Float64
  pub nearest_lateral : Float64
  pub any_lateral_pass : Bool
  pub compatible_volume : Bool
  pub joint_pass : Bool

abbrev pub no_scan : Scan
no_scan = record {
  best_score = infinity;
  best_lateral = infinity;
  best_vertical = infinity;
  nearest_lateral = infinity;
  any_lateral_pass = false;
  compatible_volume = false;
  joint_pass = false;
}

module _ (ar : Arithmetic) (policy : Policy) where
  open ar use {minus, plus, seconds}

  unfoldable pub is_inside_lateral : Observation → Volume → Bool
  is_inside_lateral o v =
      point_in_polygon ar o.longitude o.latitude v.polygon
      || float_le (distance_to_ring_meters ar o v.polygon) policy.horizontal_tolerance_m

  unfoldable pub is_comparable : Observation → Volume → Bool
  is_comparable o v = o.altitude_known && same_reference o.altitude_reference v.altitude_reference

  unfoldable pub is_inside_vertical : Observation → Volume → Bool
  is_inside_vertical o v =
      float_le (altitude_deviation_from_volume ar o v) policy.vertical_tolerance_m

  -- One volume, up to `break`.
  unfoldable pub scan_volume : Observation → Scan → Volume → Scan
  scan_volume o s v =
      let lateral_distance = distance_to_ring_meters ar o v.polygon in
      let vertical_deviation = altitude_deviation_from_volume ar o v in
      let score =
        plus (max_float zero_float (minus lateral_distance policy.horizontal_tolerance_m))
          (max_float zero_float (minus vertical_deviation policy.vertical_tolerance_m)) in
      let near =
        if float_lt lateral_distance s.nearest_lateral
        then lateral_distance
        else s.nearest_lateral in
      let lateral_pass = s.any_lateral_pass || is_inside_lateral o v in
      let better = float_lt score s.best_score in
      if is_comparable o v
      then record {
        best_score = if better then score else s.best_score;
        best_lateral = if better then lateral_distance else s.best_lateral;
        best_vertical = if better then vertical_deviation else s.best_vertical;
        nearest_lateral = near;
        any_lateral_pass = lateral_pass;
        compatible_volume = true;
        joint_pass = s.joint_pass || (is_inside_lateral o v && is_inside_vertical o v);
      }
      else record s { nearest_lateral = near; any_lateral_pass = lateral_pass }

  unfoldable pub scan_volumes : Observation → Scan → List Volume → Scan
  scan_volumes o s [] = s
  scan_volumes o s (v ∷ volumes) =
      let next = scan_volume o s v in
      let rest = scan_volumes o next volumes in if next.joint_pass then next else rest

  -- The lateral and the vertical evidence of a finished scan.
  unfoldable pub scan_evidence : Scan → Option Evidence × Option Evidence
  scan_evidence s =
      if s.joint_pass
      then (some within, some within)
      else if s.compatible_volume
      then (
        some (record {
          known = true;
          breached = float_lt policy.horizontal_tolerance_m s.best_lateral;
          deviation = s.best_lateral;
        }),
        some (record {
          known = true;
          breached = float_lt policy.vertical_tolerance_m s.best_vertical;
          deviation = s.best_vertical;
        }),
      )
      else (
        some (record {
          known = true;
          breached = not s.any_lateral_pass;
          deviation = s.nearest_lateral;
        }),
        none,
      )

  unfoldable pub spatial_evidence : Observation → List Volume → Option Evidence × Option Evidence
  unfolding scan_evidence
  spatial_evidence o [] = (none, none)
  spatial_evidence o (v ∷ volumes) = scan_evidence (scan_volumes o no_scan (v ∷ volumes))

  -- Outside the effective window, then with no active volume, then the default.
  unfoldable pub temporal_evidence : Assignment → Observation → Evidence
  unfolding clamp_time outside_window active_volumes
  temporal_evidence a o =
      if is_empty (active_volumes a o.observed_at)
      then record { known = true; breached = true; deviation = zero_float }
      else if outside_window o.observed_at a.effective_from a.effective_until
      then record {
        known = true;
        breached = true;
        deviation = abs (
            seconds
              (sub o.observed_at (clamp_time o.observed_at a.effective_from a.effective_until)));
      }
      else within

  unfoldable pub evidence_by_type : Assignment → Observation → EvidenceByType
  unfolding temporal_evidence spatial_evidence spatial_volumes
  evidence_by_type a o =
      let (lateral_evidence, vertical_evidence) =
        spatial_evidence o (spatial_volumes a o.observed_at) in
      record {
        lateral = lateral_evidence;
        vertical = vertical_evidence;
        temporal = some (temporal_evidence a o);
      }
