-- ===== src/Registry/Publish.antt =====
-- The delivery of the registry's messages: `Flush`, `publish`, `scheduleRetry`,
-- `validateAcknowledgement` and `summaryToProto` of internal/projection/registry/publisher.go. `now` is
-- the clock of PostgreSQL in the statement that ends a delivery.
use aero_arc_conformance.Prelude.{
  ℕ, Bool, false, not, ◌||◌, ◌!=◌, nat_eq, string_eq, str_lt, if◌then◌else◌, Option, none, some,
  List, [], ◌∷◌, map, String, Result, ok, err, length,
}
use aero_arc_conformance.Domain.Float.{Float64}
use aero_arc_conformance.Domain.Time.{Time, is_zero}
use aero_arc_conformance.Domain.Types.{
  Condition, MonitoringStatus, RecordingStatus, ViolationType, IncidentPhase,
}
use aero_arc_conformance.Domain.Incident.{IncidentState, Evaluation, entries}
use aero_arc_conformance.Store.Rows.{violation_name}
use aero_arc_conformance.Store.Tables.{Tables, Codec, StoreError, OutboxRow, Payload}
use aero_arc_conformance.Store.Outbox.{
  OutboxClaim, sort_by, claim_outbox, mark_outbox_delivered, retry_outbox,
}
use aero_arc_conformance.Transport.Messages.{Timestamp}
use aero_arc_conformance.Registry.Publisher.{Config}

-- The generated enumerations are in bijection with the domain's constants, but for the unset phase.
pub record ViolationSummary : Type 0 where
  pub violation : ViolationType
  pub phase : IncidentPhase
  pub opening_frame_id : String
  pub opened_at : Option Timestamp
  pub last_observed_at : Option Timestamp
  pub worst_deviation_m : Float64

pub record Summary : Type 0 where
  pub assignment_id : String
  pub generation : ℕ  -- uint64
  pub evaluation_revision : ℕ  -- uint64
  pub evaluation_id : String
  pub operator_id : String
  pub aircraft_id : String
  pub flight_id : String
  pub intent_id : String
  pub intent_version : ℕ  -- uint32
  pub condition : Condition
  pub monitoring : MonitoringStatus
  pub recording : RecordingStatus
  pub observed_at : Timestamp
  pub frame_id : String
  pub violations : List ViolationSummary

abbrev name_before : ViolationType × IncidentState → ViolationType × IncidentState → Bool
name_before v w = str_lt (violation_name v.0) (violation_name w.0)

-- timestamppb.New is a parameter.
module _ (new_timestamp : Time → Timestamp) where
  abbrev pub optional_timestamp : Time → Option Timestamp
  optional_timestamp t = if is_zero t then none else some (new_timestamp t)

  unfoldable pub violation_summary : ViolationType × IncidentState → ViolationSummary
  violation_summary (v, state) = record {
    violation = v;
    phase = state.phase;
    opening_frame_id = state.opening_frame_id;
    opened_at = optional_timestamp state.opened_at;
    last_observed_at = optional_timestamp state.last_observed_at;
    worst_deviation_m = state.worst_deviation_m;
  }

  unfoldable pub summary_to_proto : OutboxClaim → Summary
  unfolding violation_summary sort_by
  summary_to_proto c =
      let a = c.assignment in
      let e = c.evaluation in
      record {
        assignment_id = a.id;
        generation = a.generation;
        evaluation_revision = c.evaluation_revision;
        evaluation_id = c.idempotency_key;
        operator_id = a.operator_id;
        aircraft_id = a.aircraft_id;
        flight_id = a.flight_id;
        intent_id = a.intent_id;
        intent_version = a.intent_version;
        condition = e.condition;
        monitoring = e.monitoring;
        recording = e.recording;
        observed_at = new_timestamp e.observed_at;
        frame_id = e.frame_id;
        violations = map violation_summary (sort_by name_before (entries e.state));
      }

-- The summary of an acknowledgement's projection, which is none where one of them is missing, is
-- that of the exact cursor.
unfoldable pub acknowledges : Summary → Option Summary → Bool
acknowledges sent none = false
acknowledges sent (some accepted) = not (
    accepted.assignment_id != sent.assignment_id
    || accepted.generation != sent.generation
    || accepted.evaluation_revision != sent.evaluation_revision
    || accepted.evaluation_id != sent.evaluation_id)

pub data DeliveryError : Type 0 where
  publication_failed : String → DeliveryError
  retry_failed : String → StoreError → DeliveryError
  completion_failed : StoreError → DeliveryError

abbrev pub Delivered : Type 0
Delivered = Tables × Result DeliveryError (Unit {0})

-- The registry's client: an error, or the summary of the acknowledgement. `rejected` is the text of
-- the validation's error, `truncate` the cut of a text to 2048 bytes.
pub record Client : Type 0 where
  pub publish_conformance_summary : Summary → Result String (Option Summary)
  pub rejected : Summary → Option Summary → String
  pub truncate : String → String

module _ (codec : Codec) (new_timestamp : Time → Timestamp) (client : Client)
    (config : Config) where
  abbrev pub retried : Tables → String → Result StoreError Tables → Delivered
  retried s cause (err e) = (s, err (retry_failed cause e))
  retried s cause (ok t) = (t, err (publication_failed cause))

  unfoldable pub schedule_retry : Time → Tables → OutboxClaim → String → Delivered
  schedule_retry now s c cause =
      retried s cause (retry_outbox codec client.truncate now s c config.retry_delay (some cause))

  abbrev pub completed : Tables → Result StoreError Tables → Delivered
  completed s (err e) = (s, err (completion_failed e))
  completed s (ok t) = (t, ok tt)

  unfoldable pub conclude :
      Time → Tables → OutboxClaim → Summary → Result String (Option Summary) → Delivered
  unfolding schedule_retry acknowledges
  conclude now s c sent (err cause) = schedule_retry now s c cause
  conclude now s c sent (ok response) =
      if acknowledges sent response
      then completed s (mark_outbox_delivered now s c)
      else schedule_retry now s c (client.rejected sent response)

  unfoldable pub publish : Time → Tables → OutboxClaim → Delivered
  unfolding conclude summary_to_proto
  publish now s c =
      let sent = summary_to_proto new_timestamp c in
      conclude now s c sent (client.publish_conformance_summary sent)

  -- The deliveries of a batch, in the order in which their statements reach the database, each at
  -- its own time.
  unfoldable pub publish_all : Tables → List (Time × OutboxClaim) → Tables × List DeliveryError
  unfolding publish
  publish_all s [] = (s, [])
  publish_all s ((now, c) ∷ rest) =
      let (t, result) = publish now s c in
      let (u, errors) = publish_all t rest in
      (u, elim result [ ok done ↦ errors | err e ↦ e ∷ errors ])

  -- The number of claims and the errors of their deliveries. `order` is the order in which the
  -- goroutines' statements reach the database.
  abbrev pub flushed :
      (List OutboxClaim → List (Time × OutboxClaim))
      → Tables
      → Result StoreError (List OutboxClaim)
      → Tables × Result StoreError (ℕ × List DeliveryError)
  flushed order s (err e) = (s, err e)
  flushed order s (ok claims) =
      let (t, errors) = publish_all s (order claims) in (t, ok (length claims, errors))

  unfoldable pub flush :
      (Payload → Result StoreError Evaluation)
      → (List OutboxClaim → List (Time × OutboxClaim))
      → Time
      → (OutboxRow → Bool)
      → Tables
      → Tables × Result StoreError (ℕ × List DeliveryError)
  unfolding publish_all
  flush decode_other order now locked s =
      let (t, claims) =
        claim_outbox codec now decode_other locked s "registry" config.worker_id
          config.lease_duration config.batch_size in
      flushed order t claims
