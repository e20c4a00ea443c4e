-- ===== src/Transport/Messages.antt =====
-- The messages of the conformance service, by what their generated getters return, as
-- internal/transport/grpc reads and writes them.
use aero_arc_conformance.Prelude.{ℕ, Bool, Option, List, String}
use aero_arc_conformance.Domain.Float.{Float64}
use aero_arc_conformance.Domain.Time.{Time}
use aero_arc_conformance.Domain.Types.{AssignmentLifecycle}
use aero_arc_conformance.Store.Tables.{ApplyDisposition}

-- A timestamp by the answers of CheckValid and AsTime.
pub record Timestamp : Type 0 where
  pub is_valid : Bool
  pub as_time : Time

pub data AltitudeReferenceMessage : Type 0 where
  unspecified msl agl : AltitudeReferenceMessage

pub record PointMessage : Type 0 where
  pub latitude : Float64
  pub longitude : Float64

-- A nil entry of a repeated field is none.
pub record VolumeMessage : Type 0 where
  pub volume_id : String
  pub polygon : List (Option PointMessage)
  pub altitude_lower_m : Float64
  pub altitude_upper_m : Float64
  pub altitude_reference : AltitudeReferenceMessage
  pub starts_at : Option Timestamp
  pub ends_at : Option Timestamp

pub record AssignmentMessage : Type 0 where
  pub assignment_id : String
  pub assignment_generation : ℕ  -- uint64
  pub operator_id : String
  pub aircraft_id : String
  pub agent_id : String
  pub flight_id : String
  pub intent_id : String
  pub intent_version : ℕ  -- uint32
  pub policy_version : String
  pub effective_from : Option Timestamp
  pub effective_until : Option Timestamp
  pub volumes : List (Option VolumeMessage)

-- The lifecycles are in bijection with the generated constants, and so are the dispositions.
pub record RecordMessage : Type 0 where
  pub assignment : AssignmentMessage
  pub lifecycle : AssignmentLifecycle
  pub prepared_at : Option Timestamp
  pub armed_at : Option Timestamp
  pub cutover_at : Option Timestamp
  pub authority_from : Option Timestamp
  pub authority_until : Option Timestamp

pub record PrepareRequest : Type 0 where
  pub source : String
  pub message_id : String
  pub assignment : Option AssignmentMessage

-- The requests that arm, cancel and cut over; only the last has an effective time.
pub record CommandRequest : Type 0 where
  pub source : String
  pub message_id : String
  pub assignment_id : String
  pub assignment_generation : ℕ  -- uint64
  pub effective_at : Option Timestamp

pub record Response : Type 0 where
  pub disposition : ApplyDisposition
  pub assignment : Option RecordMessage
