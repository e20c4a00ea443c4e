-- ===== src/Scenarios/Flight.antt =====
-- The inputs of the scenarios: a policy, an assignment with one volume, and observations.
use aero_arc_conformance.Prelude.{ℕ, ◌+◌, pos, true, [], ◌∷◌, String, Result, ok, err}
use aero_arc_conformance.Domain.Float.{Float64, Arithmetic, zero_float, one_float}
use aero_arc_conformance.Domain.Time.{Time}
use aero_arc_conformance.Domain.Types.{AltitudeReference}
use aero_arc_conformance.Domain.Assignment.{Point, Volume, Assignment, Observation}
use aero_arc_conformance.Evaluator.Policy.{Policy}

-- An arithmetic in which the first operand is every result.
abbrev pub first_operand : Arithmetic
first_operand = record {
  plus = λ x y. x;
  minus = λ x y. x;
  times = λ x y. x;
  divided_by = λ x y. x;
  cos = λ x. x;
  hypot = λ x y. x;
  seconds = λ d. one_float;
}

abbrev pub flight_policy : Policy
flight_policy = record {
  version = "v1";
  horizontal_tolerance_m = one_float;
  vertical_tolerance_m = one_float;
  open_after_samples = pos 2;
  recover_after_samples = pos 2;
  telemetry_freshness = pos 5;
}

-- The beginning of the flight, in 1997.
abbrev pub takeoff : Time
takeoff = 63000000000000000000

abbrev pub corner : Float64 → Float64 → Point
corner lat lon = record { latitude = lat; longitude = lon }

abbrev pub ten : Float64
ten = record { bits = 0x4024000000000000 }

abbrev pub corridor : Volume
corridor = record {
  id = "corridor";
  polygon = corner zero_float zero_float ∷ corner zero_float ten ∷ corner ten ten ∷ [];
  altitude_lower_m = zero_float;
  altitude_upper_m = ten;
  altitude_reference = AltitudeReference.msl;
  starts_at = takeoff;
  ends_at = takeoff + 40;
}

abbrev pub flight : Assignment
flight = record {
  id = "assignment";
  generation = 1;
  operator_id = "operator";
  aircraft_id = "aircraft";
  agent_id = "agent";
  flight_id = "flight";
  intent_id = "intent";
  intent_version = 1;
  policy_version = "v1";
  effective_from = takeoff;
  effective_until = takeoff + 100;
  volumes = corridor ∷ [];
}

abbrev pub observed : String → ℕ → ℕ → Observation
observed frame sequence offset = record {
  frame_id = frame;
  agent_id = "agent";
  wal_id = "wal";
  wal_sequence = sequence;
  aircraft_id = "aircraft";
  flight_id = "flight";
  intent_id = "intent";
  intent_version = 1;
  latitude = one_float;
  longitude = one_float;
  altitude_m = one_float;
  altitude_known = true;
  altitude_reference = AltitudeReference.msl;
  observed_at = takeoff + offset;
}

abbrev pub first_frame : Observation
first_frame = observed "f1" 1 10

abbrev pub second_frame : Observation
second_frame = observed "f2" 2 50

abbrev pub third_frame : Observation
third_frame = observed "f3" 3 60

abbrev pub value_or {ℓ} : {E A : Type ℓ} → A → Result E A → A
value_or a (ok x) = x
value_or a (err e) = a
