-- ===== src/Telemetry/Decode.antt =====
-- The decoding of a telemetry row: `decodeObservation` and the values of
-- internal/telemetry/influx/reader.go.
use aero_arc_conformance.Prelude.{
  ℕ, ℤ, pos, negsuc, ◌^◌, true, false, ◌||◌, string_eq, leb, if◌then◌else◌, Option, none, some,
  String, is_blank, Result, ok, err, ◌>>=◌,
}
use aero_arc_conformance.Domain.Float.{
  Float64, is_nan, is_inf, float_lt, degrees_90, degrees_minus_90, degrees_180, degrees_minus_180,
  zero_float,
}
use aero_arc_conformance.Domain.Time.{Time}
use aero_arc_conformance.Domain.Types.{AltitudeReference}
use aero_arc_conformance.Domain.Assignment.{Observation}

-- The dynamic values of a row: those whose types the decoder tells apart, and the others. An int64 is
-- an integer.
pub data Value : Type 0 where
  time_value : Time → Value
  text : String → Value
  float64 : Float64 → Value
  float32 : ℕ → Value
  int64 : ℤ → Value
  uint64 : ℕ → Value
  other_value : Value

-- A row by the value of each column; a missing column is another value, as nil is.
abbrev pub Telemetry : Type 0
Telemetry = String → Value

-- The conversions of the language that round, float64(n), uint64(n) for a float64 n with
-- n >= 0 && n == math.Trunc(n) && n <= math.MaxUint64 (none otherwise), and strconv.ParseUint(n, 10, 64).
pub record Conversions : Type 0 where
  pub from_float32 : ℕ → Float64
  pub from_int64 : ℤ → Float64
  pub from_uint64 : ℕ → Float64
  pub whole_uint64 : Float64 → Option ℕ
  pub parse_uint : String → Option ℕ

pub data RowError : Type 0 where
  no_time missing_frame missing_agent missing_aircraft : RowError
  wal_identity_unavailable bad_sequence bad_latitude bad_longitude : RowError

abbrev pub string_value : Value → String
string_value (text s) = s
string_value _ = ""

abbrev pub given_text : RowError → String → Result RowError String
given_text e s = if is_blank s then err e else ok s

-- The closure requiredString.
unfoldable pub required_string : RowError → Value → Result RowError String
required_string e (text s) = given_text e s
required_string e _ = err e

abbrev pub time_of : Value → Result RowError Time
time_of (time_value t) = ok t
time_of _ = err RowError.no_time

module _ (conv : Conversions) where
  abbrev pub finite_or_none : Float64 → Option Float64
  finite_or_none f = if is_nan f || is_inf f then none else some f

  unfoldable pub float_value : Value → Option Float64
  float_value (float64 f) = finite_or_none f
  float_value (float32 n) = finite_or_none (conv.from_float32 n)
  float_value (int64 n) = finite_or_none (conv.from_int64 n)
  float_value (uint64 n) = finite_or_none (conv.from_uint64 n)
  float_value _ = none

  unfoldable pub uint_value : Value → Option ℕ
  uint_value (uint64 n) = some n
  uint_value (int64 (pos n)) = some n
  uint_value (int64 (negsuc n)) = none
  uint_value (float64 f) = conv.whole_uint64 f
  uint_value (text s) = conv.parse_uint s
  uint_value _ = none

  abbrev narrow : Option ℕ → ℕ
  narrow none = 0
  narrow (some n) = if leb (2 ^ 32) n then 0 else n

  unfoldable pub uint32_value : Value → ℕ
  unfolding uint_value
  uint32_value v = narrow (uint_value v)

  abbrev pub sequence_of : Option ℕ → Result RowError ℕ
  sequence_of none = err RowError.bad_sequence
  sequence_of (some n) = ok n

  -- A coordinate between its bounds.
  abbrev pub degrees : RowError → Float64 → Float64 → Option Float64 → Result RowError Float64
  degrees e low high none = err e
  degrees e low high (some d) = if float_lt d low || float_lt high d then err e else ok d

  abbrev pub with_altitude : Option Float64 → Observation → Observation
  with_altitude none o = o
  with_altitude (some alt) o = record o {
    altitude_m = alt;
    altitude_known = true;
    altitude_reference = AltitudeReference.msl;
  }

  -- The reference of an unknown altitude, which is empty in the source, is not read: here it is msl.
  abbrev pub observation_of :
      Telemetry → Time → String → String → String → String → ℕ → Float64 → Float64 → Observation
  observation_of row at frame agent aircraft wal sequence lat lon = record {
    frame_id = frame;
    agent_id = agent;
    wal_id = wal;
    wal_sequence = sequence;
    aircraft_id = aircraft;
    flight_id = string_value (row "flight_id");
    intent_id = string_value (row "intent_id");
    intent_version = uint32_value (row "intent_version");
    latitude = lat;
    longitude = lon;
    altitude_m = zero_float;
    altitude_known = false;
    altitude_reference = AltitudeReference.msl;
    observed_at = at;
  }

  unfoldable pub decode_observation : Telemetry → Result RowError Observation
  unfolding required_string float_value uint_value
  decode_observation row = time_of (row "time") >>= λ at.
      required_string RowError.missing_frame (row "frame_id") >>= λ frame.
      required_string RowError.missing_agent (row "agent_id") >>= λ agent.
      required_string RowError.missing_aircraft (row "aircraft_id") >>= λ aircraft.
      required_string RowError.wal_identity_unavailable (row "wal_id") >>= λ wal.
      sequence_of (uint_value (row "wal_sequence")) >>= λ sequence.
      degrees RowError.bad_latitude degrees_minus_90 degrees_90 (float_value (row "latitude_deg"))
      >>= λ lat.
          degrees RowError.bad_longitude degrees_minus_180 degrees_180
            (float_value (row "longitude_deg"))
          >>= λ lon. ok (
              with_altitude (float_value (row "altitude_msl_m"))
                (observation_of row at frame agent aircraft wal sequence lat lon))
