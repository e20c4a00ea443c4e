-- ===== src/Scenarios/Readings.antt =====
-- A row of telemetry, decoded.
use aero_arc_conformance.Prelude.{
  ◌≡◌, refl, ◌||◌, ◌==◌, string_eq, pos, if◌then◌else◌, none, Result, ok, err, is_blank, false, [],
  ◌∷◌, ◌+◌, is_empty, All, trim_space,
}
use aero_arc_conformance.Domain.Float.{one_float, zero_float, is_nan, is_inf, float_lt}
use aero_arc_conformance.Domain.Assignment.{Observation}
use aero_arc_conformance.Telemetry.Decode.{
  time_value, text, float64, int64, other_value, Telemetry, Conversions, decode_observation,
}
use aero_arc_conformance.Telemetry.Valid.{IsDecoded, decode_observation-IsDecoded}
use aero_arc_conformance.Evaluator.Batch.{observation_before}
use aero_arc_conformance.Worker.Suffix.{sort_stable}
use aero_arc_conformance.Worker.Split.{ReadResult}
use aero_arc_conformance.Telemetry.Reader.{Runner, Reader, read_positions, unique_ids, chunks_of}
use aero_arc_conformance.Telemetry.Complete.{Unsaturated, FramesDiffer, read_positions_lem}
use aero_arc_conformance.Scenarios.Flight.{takeoff, first_frame}

abbrev no_conversion : Conversions
no_conversion = record {
  from_float32 = λ n. zero_float;
  from_int64 = λ n. zero_float;
  from_uint64 = λ n. zero_float;
  whole_uint64 = λ f. none;
  parse_uint = λ s. none;
}

abbrev row : Telemetry
row column =
    if column == "time"
    then time_value takeoff
    else if column == "wal_sequence"
    then int64 (pos 1)
    else if column == "latitude_deg" || column == "longitude_deg"
    then float64 one_float
    else if column == "altitude_msl_m"
    then other_value
    else text column

abbrev decoded : Observation
decoded = observation_or (decode_observation no_conversion row)
  where
    observation_or : {E : Type 0} → Result E Observation → Observation
    observation_or (ok o) = o
    observation_or (err e) = first_frame

decoded-ok : decode_observation no_conversion row ≡ ok decoded
unfolding decode_observation is_blank is_nan is_inf float_lt
decoded-ok = refl

decode_observation-IsDecoded_example : IsDecoded decoded
decode_observation-IsDecoded_example =
    decode_observation-IsDecoded no_conversion row decoded decoded-ok

abbrev answering : Runner
answering = record {
  query = λ ids start end. ok (row ∷ row ∷ []);
  lower = λ text. text;
  reason = λ e. "malformed";
}

abbrev small_reader : Reader
small_reader = record { chunk_size = pos 2; max_rows = pos 5 }

abbrev positions : ReadResult
positions = record { observations = decoded ∷ []; rejections = [] }

some_ids : is_empty (unique_ids ("aircraft_id" ∷ [])) ≡ false
unfolding unique_ids trim_space
some_ids = refl

positions-ok :
    read_positions no_conversion answering small_reader ("aircraft_id" ∷ []) takeoff (takeoff + 10)
    ≡ ok positions
unfolding read_positions decode_observation is_blank is_nan is_inf float_lt trim_space sort_stable
    observation_before
positions-ok = refl

read_positions_lem_example :
    All
      (Unsaturated no_conversion answering small_reader takeoff (takeoff + 10))
      (chunks_of 2 (unique_ids ("aircraft_id" ∷ [])))
    × All IsDecoded positions.observations
    × FramesDiffer [] positions.observations
read_positions_lem_example =
    read_positions_lem no_conversion answering small_reader ("aircraft_id" ∷ []) takeoff
      (takeoff + 10) positions positions-ok some_ids
