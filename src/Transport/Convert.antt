-- ===== src/Transport/Convert.antt =====
-- Between messages and assignments: `assignmentFromProto`, `assignmentToProto`,
-- `assignmentRecordToProto` and their helpers of internal/transport/grpc/assignment_handler.go.
use aero_arc_conformance.Prelude.{
  ℕ, Bool, true, false, not, ◌&&◌, ◌||◌, ◌==◌, ◌!=◌, nat_eq, string_eq, ltb, if◌then◌else◌, Option,
  none, some, List, [], ◌∷◌, length, is_empty, map, String, is_blank, Result, ok, err, ◌>>=◌, ◌>>◌,
  fail_if,
}
use aero_arc_conformance.Domain.Float.{
  Float64, is_nan, is_inf, float_le, float_lt, degrees_90, degrees_minus_90, degrees_180,
  degrees_minus_180,
}
use aero_arc_conformance.Domain.Time.{Time, after, is_zero, supported_unix_nanoseconds}
use aero_arc_conformance.Domain.Types.{AltitudeReference}
use aero_arc_conformance.Domain.Assignment.{Point, Volume, Assignment, AssignmentRecord}
use aero_arc_conformance.Store.Tables.{max_int64, max_int32}
use aero_arc_conformance.Transport.Messages.{
  Timestamp, AltitudeReferenceMessage, PointMessage, VolumeMessage, AssignmentMessage,
  RecordMessage,
}

pub data ConvertError : Type 0 where
  missing_assignment bad_effective_from bad_effective_until bad_volume_times bad_altitude :
      ConvertError
  bad_volume bad_reference bad_point bad_assignment : ConvertError

unfoldable pub valid_geographic_coordinate : Float64 → Float64 → Bool
valid_geographic_coordinate lat lon =
    not (is_nan lat)
    && not (is_inf lat)
    && float_le degrees_minus_90 lat
    && float_le lat degrees_90
    && not (is_nan lon)
    && not (is_inf lon)
    && float_le degrees_minus_180 lon
    && float_le lon degrees_180

unfoldable pub valid_assignment_generation : ℕ → Bool
valid_assignment_generation generation = ltb 0 generation && not (ltb max_int64 generation)

abbrev pub reference_from_proto : AltitudeReferenceMessage → Result ConvertError AltitudeReference
reference_from_proto AltitudeReferenceMessage.unspecified = err bad_reference
reference_from_proto AltitudeReferenceMessage.msl = ok AltitudeReference.msl
reference_from_proto AltitudeReferenceMessage.agl = ok AltitudeReference.agl

abbrev pub reference_to_proto : AltitudeReference → AltitudeReferenceMessage
reference_to_proto AltitudeReference.msl = AltitudeReferenceMessage.msl
reference_to_proto AltitudeReference.agl = AltitudeReferenceMessage.agl

-- A timestamp that must be there and be valid.
abbrev pub valid_time : ConvertError → Option Timestamp → Result ConvertError Time
valid_time e none = err e
valid_time e (some t) = if t.is_valid then ok t.as_time else err e

abbrev pub point_from_proto : Option PointMessage → Result ConvertError Point
point_from_proto none = err bad_point
point_from_proto (some p) =
    if valid_geographic_coordinate p.latitude p.longitude
    then ok (record { latitude = p.latitude; longitude = p.longitude })
    else err bad_point

-- A loop that converts the entries and stops at the first error.
abbrev pub convert_all {ℓ} :
    {Source Target : Type ℓ} {Failure : Type ℓ}
    → (Source → Result Failure Target)
    → List Source
    → Result Failure (List Target)
convert_all f [] = ok []
convert_all f (x ∷ xs) = f x >>= λ y. convert_all f xs >>= λ ys. ok (y ∷ ys)

abbrev pub is_infinite_or_nan : Float64 → Bool
is_infinite_or_nan x = is_nan x || is_inf x

-- The tests on a volume whose times are valid, up to its polygon.
unfoldable pub check_volume : VolumeMessage → Time → Time → Result ConvertError AltitudeReference
check_volume v starts ends =
    fail_if (is_infinite_or_nan v.altitude_lower_m || is_infinite_or_nan v.altitude_upper_m)
      bad_altitude
    >> fail_if
        (is_blank v.volume_id
          || ltb (length v.polygon) 3
          || not (after ends starts)
          || float_lt v.altitude_upper_m v.altitude_lower_m)
        bad_volume
    >> reference_from_proto v.altitude_reference

abbrev pub volume_of : VolumeMessage → Time → Time → AltitudeReference → List Point → Volume
volume_of v starts ends reference polygon = record {
  id = v.volume_id;
  polygon = polygon;
  altitude_lower_m = v.altitude_lower_m;
  altitude_upper_m = v.altitude_upper_m;
  altitude_reference = reference;
  starts_at = starts;
  ends_at = ends;
}

unfoldable pub volume_from_message : VolumeMessage → Result ConvertError Volume
unfolding check_volume
volume_from_message v = valid_time bad_volume_times v.starts_at >>= λ starts.
    valid_time bad_volume_times v.ends_at >>= λ ends. check_volume v starts ends >>= λ reference.
    convert_all point_from_proto v.polygon >>= λ polygon.
    ok (volume_of v starts ends reference polygon)

abbrev pub volume_from_proto : Option VolumeMessage → Result ConvertError Volume
volume_from_proto none = err bad_volume_times
volume_from_proto (some v) = volume_from_message v

-- The last test, on the assignment that was built.
unfoldable pub is_bad_assignment : Assignment → String → Bool
unfolding valid_assignment_generation
is_bad_assignment a policy_version =
    is_blank a.id
    || not (valid_assignment_generation a.generation)
    || is_blank a.aircraft_id
    || is_blank a.agent_id
    || is_blank a.flight_id
    || is_blank a.intent_id
    || a.intent_version == 0
    || ltb max_int32 a.intent_version
    || a.policy_version != policy_version
    || not (after a.effective_until a.effective_from)
    || not (supported_unix_nanoseconds a.effective_from)
    || not (supported_unix_nanoseconds a.effective_until)
    || is_empty a.volumes

abbrev pub assignment_of : AssignmentMessage → Time → Time → List Volume → Assignment
assignment_of p from until volumes = record {
  id = p.assignment_id;
  generation = p.assignment_generation;
  operator_id = p.operator_id;
  aircraft_id = p.aircraft_id;
  agent_id = p.agent_id;
  flight_id = p.flight_id;
  intent_id = p.intent_id;
  intent_version = p.intent_version;
  policy_version = p.policy_version;
  effective_from = from;
  effective_until = until;
  volumes = volumes;
}

abbrev pub checked_assignment : String → Assignment → Result ConvertError Assignment
checked_assignment policy_version a =
    if is_bad_assignment a policy_version then err bad_assignment else ok a

-- A missing bound of the window is reported first, then an invalid one.
abbrev pub is_missing {ℓ} : {A : Type ℓ} → Option A → Bool
is_missing none = true
is_missing (some a) = false

unfoldable pub assignment_from_message : AssignmentMessage → String → Result ConvertError Assignment
assignment_from_message p policy_version =
    fail_if (is_missing p.effective_from || is_missing p.effective_until) missing_assignment
    >> valid_time bad_effective_from p.effective_from
    >>= λ from. valid_time bad_effective_until p.effective_until >>= λ until.
        convert_all volume_from_proto p.volumes >>= λ volumes.
        checked_assignment policy_version (assignment_of p from until volumes)

unfoldable pub assignment_from_proto :
    Option AssignmentMessage → String → Result ConvertError Assignment
unfolding assignment_from_message
assignment_from_proto none policy_version = err missing_assignment
assignment_from_proto (some p) policy_version = assignment_from_message p policy_version

-- timestamppb.New is a parameter.
module _ (new_timestamp : Time → Timestamp) where
  abbrev pub point_to_proto : Point → Option PointMessage
  point_to_proto p = some (record { latitude = p.latitude; longitude = p.longitude })

  unfoldable pub volume_to_proto : Volume → VolumeMessage
  volume_to_proto v = record {
    volume_id = v.id;
    polygon = map point_to_proto v.polygon;
    altitude_lower_m = v.altitude_lower_m;
    altitude_upper_m = v.altitude_upper_m;
    altitude_reference = reference_to_proto v.altitude_reference;
    starts_at = some (new_timestamp v.starts_at);
    ends_at = some (new_timestamp v.ends_at);
  }

  unfoldable pub assignment_to_proto : Assignment → AssignmentMessage
  assignment_to_proto a = record {
    assignment_id = a.id;
    assignment_generation = a.generation;
    operator_id = a.operator_id;
    aircraft_id = a.aircraft_id;
    agent_id = a.agent_id;
    flight_id = a.flight_id;
    intent_id = a.intent_id;
    intent_version = a.intent_version;
    policy_version = a.policy_version;
    effective_from = some (new_timestamp a.effective_from);
    effective_until = some (new_timestamp a.effective_until);
    volumes = map (λ v. some (volume_to_proto v)) a.volumes;
  }

  abbrev pub optional_time : Time → Option Timestamp
  optional_time t = if is_zero t then none else some (new_timestamp t)

  abbrev pub optional_pointer_time : Option Time → Option Timestamp
  optional_pointer_time none = none
  optional_pointer_time (some t) = optional_time t

  unfoldable pub assignment_record_to_proto : AssignmentRecord → RecordMessage
  unfolding assignment_to_proto
  assignment_record_to_proto r = record {
    assignment = assignment_to_proto r.assignment;
    lifecycle = r.lifecycle;
    prepared_at = optional_time r.prepared_at;
    armed_at = optional_pointer_time r.armed_at;
    cutover_at = optional_pointer_time r.cutover_at;
    authority_from = optional_pointer_time r.authority_from;
    authority_until = optional_pointer_time r.authority_until;
  }
