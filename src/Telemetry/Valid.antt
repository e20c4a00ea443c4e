-- ===== src/Telemetry/Valid.antt =====
-- What a decoded observation has: `decodeObservation` of internal/telemetry/influx/reader.go against the
-- tests of the engine.
use mathlib.Core.Path.{subst}
use aero_arc_conformance.Prelude.{
  ◌≡◌, refl, inl, inr, true, false, ◌||◌, Option, none, some, String, is_blank, ok, arith,
  Bool-cases, >>=-elim, ok_injective, err-not_ok, string_eq,
}
use aero_arc_conformance.Domain.Float.{
  Float64, is_nan, float_lt, float_le, degrees_90, degrees_minus_90, degrees_180, degrees_minus_180,
  not_lt-le,
}
use aero_arc_conformance.Domain.Assignment.{Observation}
use aero_arc_conformance.Evaluator.Policy.{valid_coordinate, finite}
use aero_arc_conformance.Telemetry.Decode.{
  Value, text, Telemetry, Conversions, RowError, time_of, required_string, float_value, uint_value,
  sequence_of, degrees, with_altitude, observation_of, decode_observation,
}

-- The names and the position that the engine and the store rely on.
pub record IsDecoded (o : Observation) : Type 0 where
  pub frame : is_blank o.frame_id ≡ false
  pub agent : is_blank o.agent_id ≡ false
  pub aircraft : is_blank o.aircraft_id ≡ false
  pub wal : is_blank o.wal_id ≡ false
  pub position : valid_coordinate o.latitude o.longitude ≡ true

required-given :
    (e : RowError) (v : Value) (s : String) → required_string e v ≡ ok s → is_blank s ≡ false
unfolding required_string
required-given e (text t) s h = elim (Bool-cases (is_blank t)) [
  | inl blank ↦ absurd (err-not_ok e s (rw blank at h))
  | inr given ↦ subst (λ u. is_blank u ≡ false) (ok_injective refl (rw given at h)) given
]
required-given e _ s h = absurd (err-not_ok e s h)

module _ (conv : Conversions) where
  float_value-finite : (v : Value) (f : Float64) → float_value conv v ≡ some f → finite f ≡ true
  unfolding float_value finite
  float_value-finite v f h = ground arith

  degrees-within :
      (e : RowError) (low high : Float64) (o : Option Float64) (d : Float64)
      → ((f : Float64) → o ≡ some f → finite f ≡ true)
      → degrees conv e low high o ≡ ok d
      → (finite d ≡ true) × (float_lt d low ≡ false) × (float_lt high d ≡ false)
  degrees-within e low high none d k h = absurd (err-not_ok e d h)
  degrees-within e low high (some f) d k h = elim (Bool-cases (float_lt f low || float_lt high f)) [
    | inl outside ↦ absurd (err-not_ok e d (rw outside at h))
    | inr inside ↦
        subst (λ x. (finite x ≡ true) × (float_lt x low ≡ false) × (float_lt high x ≡ false))
          (ok_injective refl (rw inside at h)) (k f refl, (or_false inside).0, (or_false inside).1)
  ]
    where
      or_false :
          (float_lt f low || float_lt high f) ≡ false
          → (float_lt f low ≡ false) × (float_lt high f ≡ false)
      or_false inside = ground arith

  with_altitude-IsDecoded :
      (alt : Option Float64) (o : Observation) → IsDecoded o → IsDecoded (with_altitude conv alt o)
  with_altitude-IsDecoded none o h = h
  with_altitude-IsDecoded (some a) o h = record {
    frame = h.frame;
    agent = h.agent;
    aircraft = h.aircraft;
    wal = h.wal;
    position = h.position;
  }

abbrev Within : Float64 → Float64 → Float64 → Type 0
Within low high d = (finite d ≡ true) × (float_lt d low ≡ false) × (float_lt high d ≡ false)

Within-le :
    (low high d : Float64)
    → is_nan low ≡ false
    → is_nan high ≡ false
    → Within low high d
    → (float_le low d ≡ true) × (float_le d high ≡ true)
unfolding finite
Within-le low high d l h (is, above, below) =
    let number : is_nan d ≡ false = ground (arith, is) in
    (not_lt-le d low number l above, not_lt-le high d h number below)

position-valid :
    (lat lon : Float64)
    → Within degrees_minus_90 degrees_90 lat
    → Within degrees_minus_180 degrees_180 lon
    → valid_coordinate lat lon ≡ true
unfolding valid_coordinate is_nan
position-valid lat lon h k =
    let (a, b) = Within-le degrees_minus_90 degrees_90 lat refl refl h in
    let (c, d) = Within-le degrees_minus_180 degrees_180 lon refl refl k in
    rw h.0 (rw k.0 (rw a (rw b (rw c d))))

-- A row that is decoded has named its frame, agent, aircraft and WAL, and its position is one that the
-- engine accepts: finite, and between the bounds of latitude and longitude.
pub decode_observation-IsDecoded :
    (conv : Conversions) (row : Telemetry) (o : Observation)
    → decode_observation conv row ≡ ok o
    → IsDecoded o
unfolding decode_observation
decode_observation-IsDecoded conv row o h =
    >>=-elim (time_of (row "time")) _
      (λ at _. >>=-elim (required_string RowError.missing_frame (row "frame_id")) _ (λ frame f.
        >>=-elim (required_string RowError.missing_agent (row "agent_id")) _ (λ agent g.
          >>=-elim (required_string RowError.missing_aircraft (row "aircraft_id")) _ (λ aircraft a.
            >>=-elim (required_string RowError.wal_identity_unavailable (row "wal_id")) _ (λ wal w.
              >>=-elim (sequence_of conv (uint_value conv (row "wal_sequence"))) _ (λ sequence _.
                >>=-elim
                  (degrees conv RowError.bad_latitude degrees_minus_90 degrees_90
                    (float_value conv (row "latitude_deg")))
                  _
                  (λ lat p.
                    >>=-elim
                      (degrees conv RowError.bad_longitude degrees_minus_180 degrees_180
                        (float_value conv (row "longitude_deg")))
                      _
                      (λ lon q last. subst IsDecoded (ok_injective refl last) (
                        with_altitude-IsDecoded conv (float_value conv (row "altitude_msl_m"))
                          (observation_of conv row at frame agent aircraft wal sequence lat lon)
                          (record {
                            frame = required-given RowError.missing_frame (row "frame_id") frame f;
                            agent = required-given RowError.missing_agent (row "agent_id") agent g;
                            aircraft =
                                required-given RowError.missing_aircraft (row "aircraft_id")
                                  aircraft a;
                            wal =
                                required-given RowError.wal_identity_unavailable (row "wal_id") wal
                                  w;
                            position =
                                position-valid lat lon
                                  (degrees-within conv RowError.bad_latitude degrees_minus_90
                                    degrees_90 (float_value conv (row "latitude_deg")) lat
                                    (float_value-finite conv (row "latitude_deg")) p)
                                  (degrees-within conv RowError.bad_longitude degrees_minus_180
                                    degrees_180 (float_value conv (row "longitude_deg")) lon
                                    (float_value-finite conv (row "longitude_deg")) q);
                          }))))))))))
      h
