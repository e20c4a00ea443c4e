-- ===== src/Scenarios/Messages.antt =====
-- The flight's assignment as a message, accepted and written back.
use mathlib.Core.Path.{◌≡◌, refl}
use aero_arc_conformance.Prelude.{true, false, some, ok, is_blank, arith}
use aero_arc_conformance.Domain.Float.{is_nan, is_inf, float_le, float_lt}
use aero_arc_conformance.Domain.Time.{Time, supported_unix_nanoseconds}
use aero_arc_conformance.Evaluator.Policy.{validate_assignment}
use aero_arc_conformance.Store.Lifecycle.Prepare.{is_invalid_envelope}
use aero_arc_conformance.Transport.Messages.{Timestamp, AssignmentMessage}
use aero_arc_conformance.Transport.Convert.{
  assignment_from_proto, assignment_to_proto, volume_from_message, volume_to_proto,
  valid_geographic_coordinate, is_bad_assignment,
}
use aero_arc_conformance.Transport.Accepts.{assignment_from_proto-validate_assignment}
use aero_arc_conformance.Transport.RoundTrip.{KeepsTimes, assignment_from_proto-assignment_to_proto}
use aero_arc_conformance.Scenarios.Flight.{flight, flight_policy}

abbrev valid_timestamp : Time → Timestamp
valid_timestamp t = record { is_valid = true; as_time = t }

valid_timestamp-KeepsTimes : KeepsTimes valid_timestamp
valid_timestamp-KeepsTimes t h = (refl, refl)

abbrev sent : AssignmentMessage
sent = assignment_to_proto valid_timestamp flight

sent-ok : assignment_from_proto (some sent) "v1" ≡ ok flight
unfolding assignment_from_proto assignment_to_proto volume_from_message volume_to_proto is_nan
    is_inf is_blank float_lt valid_geographic_coordinate float_le is_bad_assignment
    supported_unix_nanoseconds
sent-ok = refl

source-named : is_blank "api" ≡ false
unfolding is_blank
source-named = refl

message-named : is_blank "m1" ≡ false
unfolding is_blank
message-named = refl

version-named : is_blank "v1" ≡ false
unfolding is_blank
version-named = refl

assignment_from_proto-validate_assignment_example :
    (is_invalid_envelope (record {
      source = "api";
      message_id = "m1";
      message_type = "assignment_prepared";
      assignment = flight;
    })
      ≡ false)
    × (validate_assignment flight flight_policy ≡ ok tt)
assignment_from_proto-validate_assignment_example =
    assignment_from_proto-validate_assignment (some sent) flight "api" "m1" flight_policy
      source-named message-named version-named sent-ok

assignment_from_proto-assignment_to_proto_example :
    assignment_from_proto (some (assignment_to_proto valid_timestamp flight)) "v1" ≡ ok flight
assignment_from_proto-assignment_to_proto_example =
    assignment_from_proto-assignment_to_proto valid_timestamp valid_timestamp-KeepsTimes (some sent)
      "v1" flight sent-ok ((omega arith, omega arith), tt)
