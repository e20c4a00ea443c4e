-- ===== src/Evaluator/Policy.antt =====
-- The evaluator's policy and the validation of its inputs: internal/evaluator/evaluator.go.
use aero_arc_conformance.Prelude.{
  ℤ, pos, Bool, not, ◌&&◌, ◌||◌, ◌==◌, ◌!=◌, nat_eq, string_eq, leb_ℤ, ltb_ℤ, ltb, List, [], ◌∷◌,
  String, length, is_empty, Result, ok, ◌>>◌, fail_if,
}
use aero_arc_conformance.Domain.Float.{
  Float64, is_nan, is_inf, float_lt, float_le, zero_float, degrees_90, degrees_minus_90,
  degrees_180, degrees_minus_180,
}
use aero_arc_conformance.Domain.Time.{Duration, is_zero, after}
use aero_arc_conformance.Domain.Assignment.{Point, Volume, Assignment, Observation}

pub record Policy : Type 0 where
  pub version : String
  pub horizontal_tolerance_m : Float64
  pub vertical_tolerance_m : Float64
  pub open_after_samples : ℤ  -- int
  pub recover_after_samples : ℤ  -- int
  pub telemetry_freshness : Duration

-- Each wraps ErrInvalidInput.
pub data InvalidInput : Type 0 where
  incomplete_policy invalid_assignment invalid_volume_coordinate identity_mismatch : InvalidInput
  empty_batch not_canonically_ordered : InvalidInput
  invalid_volume : String → InvalidInput

unfoldable pub finite : Float64 → Bool
finite v = not (is_nan v) && not (is_inf v)

unfoldable pub finite_nonnegative : Float64 → Bool
unfolding finite
finite_nonnegative v = finite v && float_le zero_float v

unfoldable pub valid_coordinate : Float64 → Float64 → Bool
unfolding finite
valid_coordinate lat lon =
    finite lat
    && finite lon
    && float_le degrees_minus_90 lat
    && float_le lat degrees_90
    && float_le degrees_minus_180 lon
    && float_le lon degrees_180

unfoldable pub validate : Policy → Result InvalidInput (Unit {0})
unfolding finite_nonnegative
validate p =
    fail_if
      (p.version == ""
        || not (finite_nonnegative p.horizontal_tolerance_m)
        || not (finite_nonnegative p.vertical_tolerance_m)
        || ltb_ℤ p.open_after_samples (pos 1)
        || ltb_ℤ p.recover_after_samples (pos 1)
        || leb_ℤ p.telemetry_freshness (pos 0))
      incomplete_policy

pub record Evaluator : Type 0 where
  pub policy : Policy

unfoldable pub new : Policy → Result InvalidInput Evaluator
unfolding validate
new policy = do validate policy; ok (record { policy = policy })

unfoldable pub validate_points : List Point → Result InvalidInput (Unit {0})
unfolding valid_coordinate
validate_points [] = ok tt
validate_points (point ∷ points) = do
  fail_if (not (valid_coordinate point.latitude point.longitude)) invalid_volume_coordinate
  validate_points points

unfoldable pub validate_volumes : List Volume → Result InvalidInput (Unit {0})
unfolding finite validate_points
validate_volumes [] = ok tt
validate_volumes (v ∷ volumes) = do
  fail_if
      (v.id == ""
        || ltb (length v.polygon) 3
        || not (after v.ends_at v.starts_at)
        || float_lt v.altitude_upper_m v.altitude_lower_m
        || not (finite v.altitude_lower_m)
        || not (finite v.altitude_upper_m))
      (invalid_volume v.id)
  validate_points v.polygon
  validate_volumes volumes

unfoldable pub validate_assignment : Assignment → Policy → Result InvalidInput (Unit {0})
unfolding validate_volumes
validate_assignment a policy = do
  fail_if
      (a.id == ""
        || a.generation == 0
        || a.aircraft_id == ""
        || a.agent_id == ""
        || a.flight_id == ""
        || a.intent_id == ""
        || a.intent_version == 0
        || a.policy_version != policy.version
        || is_zero a.effective_from
        || not (after a.effective_until a.effective_from)
        || is_empty a.volumes)
      invalid_assignment
  validate_volumes a.volumes

-- The observation belongs to the assignment and holds usable values.
unfoldable pub identity_differs : Assignment → Observation → Bool
unfolding valid_coordinate finite
identity_differs a o =
    o.frame_id == ""
    || o.agent_id == ""
    || o.wal_id == ""
    || o.aircraft_id != a.aircraft_id
    || o.agent_id != a.agent_id
    || o.flight_id != a.flight_id
    || o.intent_id != a.intent_id
    || o.intent_version != a.intent_version
    || is_zero o.observed_at
    || not (valid_coordinate o.latitude o.longitude)
    || (o.altitude_known && not (finite o.altitude_m))
