-- ===== src/Domain/Assignment.antt =====
-- Assignments, their authority intervals and observations: internal/domain/types.go.
use aero_arc_conformance.Prelude.{ℕ, Bool, true, false, not, ◌&&◌, Option, none, some, List, String}
use aero_arc_conformance.Domain.Float.{Float64}
use aero_arc_conformance.Domain.Time.{Time, before}
use aero_arc_conformance.Domain.Types.{AltitudeReference, AssignmentLifecycle}

pub record Point : Type 0 where
  pub latitude : Float64
  pub longitude : Float64

pub record Volume : Type 0 where
  pub id : String
  pub polygon : List Point
  pub altitude_lower_m : Float64
  pub altitude_upper_m : Float64
  pub altitude_reference : AltitudeReference
  pub starts_at : Time
  pub ends_at : Time

pub record Assignment : Type 0 where
  pub id : String
  pub generation : ℕ  -- uint64
  pub operator_id : String
  pub aircraft_id : String
  pub agent_id : String
  pub flight_id : String
  pub intent_id : String
  pub intent_version : ℕ  -- uint32
  pub policy_version : String
  pub effective_from : Time
  pub effective_until : Time
  pub volumes : List Volume

pub record AssignmentRecord : Type 0 where
  pub assignment : Assignment
  pub lifecycle : AssignmentLifecycle
  pub authority_from : Option Time
  pub authority_until : Option Time
  pub prepared_at : Time
  pub armed_at : Option Time
  pub cutover_at : Option Time

-- `observedAt.Before(*until)`, where a nil bound is no bound.
abbrev before_until : Time → Option Time → Bool
before_until t none = true
before_until t (some until) = before t until

abbrev from_reached : Option Time → Time → Bool
from_reached none t = false
from_reached (some from) t = not (before t from)

unfoldable pub authorizes : AssignmentRecord → Time → Bool
authorizes r observed_at =
    from_reached r.authority_from observed_at && before_until observed_at r.authority_until

pub record Observation : Type 0 where
  pub frame_id : String
  pub agent_id : String
  pub wal_id : String
  pub wal_sequence : ℕ  -- uint64
  pub aircraft_id : String
  pub flight_id : String
  pub intent_id : String
  pub intent_version : ℕ  -- uint32
  pub latitude : Float64
  pub longitude : Float64
  pub altitude_m : Float64
  pub altitude_known : Bool
  pub altitude_reference : AltitudeReference
  pub observed_at : Time
