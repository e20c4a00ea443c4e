-- ===== src/Transport/Reading.antt =====
-- The history RPC: `ListConformanceEvents` of internal/transport/grpc/history_handler.go, with the
-- store's history as its store.
use aero_arc_conformance.Prelude.{
  ℕ, ℤ, Option, none, some, List, String, map, if◌then◌else◌, Result, ok, err, ◌>>=◌,
}
use aero_arc_conformance.Domain.Float.{Float64}
use aero_arc_conformance.Domain.Time.{Time}
use aero_arc_conformance.Domain.Types.{ViolationType, Transition}
use aero_arc_conformance.Store.Tables.{Tables, Codec}
use aero_arc_conformance.Store.History.{
  HistoryError, HistoryEvent, HistoryPage, Tokens, list_conformance_events,
}
use aero_arc_conformance.Transport.Messages.{Timestamp}
use aero_arc_conformance.Transport.Handler.{Code}

pub record HistoryRequest : Type 0 where
  pub assignment_id : String
  pub generation : ℕ  -- uint64
  pub from : Option Timestamp
  pub until : Option Timestamp
  pub page_size : ℤ  -- int32
  pub page_token : String

-- The generated kinds of violation are in bijection with the domain's.
pub record HistoryMessage : Type 0 where
  pub event_id : String
  pub assignment_id : String
  pub generation : ℕ  -- uint64
  pub intent_id : String
  pub intent_version : ℕ  -- uint32
  pub aircraft_id : String
  pub flight_id : String
  pub incident_id : String
  pub transition : Transition
  pub violation : ViolationType
  pub observed_at : Timestamp
  pub deviation_m : Option Float64
  pub frame_id : String
  pub evaluation_revision : ℕ  -- uint64
  pub planned_start_at : Option Timestamp
  pub planned_end_at : Option Timestamp

pub record HistoryResponse : Type 0 where
  pub events : List HistoryMessage
  pub next_page_token : String

-- A bound that is given must be valid.
abbrev pub time_bound : Option Timestamp → Result Code (Option Time)
time_bound none = ok none
time_bound (some t) = if t.is_valid then ok (some t.as_time) else err Code.invalid_argument

abbrev pub history_status : HistoryError → Code
history_status HistoryError.invalid_history_query = Code.invalid_argument
history_status HistoryError.encode_cursor_failed = Code.unavailable

module _ (new_timestamp : Time → Timestamp) where
  abbrev given_timestamp : Option Time → Option Timestamp
  given_timestamp none = none
  given_timestamp (some t) = some (new_timestamp t)

  unfoldable pub history_message : HistoryEvent → HistoryMessage
  history_message e = record {
    event_id = e.id;
    assignment_id = e.assignment_id;
    generation = e.generation;
    intent_id = e.intent_id;
    intent_version = e.intent_version;
    aircraft_id = e.aircraft_id;
    flight_id = e.flight_id;
    incident_id = e.incident_id;
    transition = e.transition;
    violation = e.violation;
    observed_at = new_timestamp e.observed_at;
    deviation_m = e.deviation_m;
    frame_id = e.frame_id;
    evaluation_revision = e.evaluation_revision;
    planned_start_at = given_timestamp e.planned_start_at;
    planned_end_at = given_timestamp e.planned_end_at;
  }

  abbrev pub answer_page : Result HistoryError HistoryPage → Result Code HistoryResponse
  answer_page (err e) = err (history_status e)
  answer_page (ok page) =
      ok (record {
        events = map history_message page.events;
        next_page_token = page.next_page_token;
      })

  unfoldable pub handle_history :
      Codec → Tokens → Tables → HistoryRequest → Result Code HistoryResponse
  unfolding history_message
  handle_history codec tokens s request = time_bound request.from >>= λ from.
      time_bound request.until >>= λ until. answer_page (
        list_conformance_events codec tokens s (record {
          assignment_id = request.assignment_id;
          generation = request.generation;
          from = from;
          until = until;
          page_size = request.page_size;
          page_token = request.page_token;
        }))
