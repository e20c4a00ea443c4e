-- ===== src/Store/Rows.antt =====
-- The rows that evaluations write: conformance_checkpoints, conformance_incidents,
-- conformance_events, conformance_summaries and the delivery columns of conformance_outbox, as
-- internal/store/postgres/store.go writes them. A jsonb column is held as the value that it encodes.
use aero_arc_conformance.Prelude.{
  ℕ, Bool, true, false, ◌&&◌, ◌||◌, ◌==◌, nat_eq, string_eq, Option, none, some, String,
}
use aero_arc_conformance.Domain.Float.{Float64, is_nan, float_le}
use aero_arc_conformance.Domain.Time.{Time, UnixNano}
use aero_arc_conformance.Domain.Types.{ViolationType, Transition, same_violation}
use aero_arc_conformance.Domain.Incident.{EvaluatorState, Evaluation}

pub record CheckpointRow : Type 0 where
  pub assignment_id : String
  pub generation : ℕ
  pub evaluation_revision : ℕ
  pub state_through_at : UnixNano
  pub wal_id : String
  pub wal_sequence : ℕ
  pub frame_id : String
  pub evaluator_state : EvaluatorState

-- The state is open where there is no resolution event. The incident key is the violation's text.
pub record IncidentRow : Type 0 where
  pub incident_id : String
  pub assignment_id : String
  pub generation : ℕ
  pub violation : ViolationType
  pub opened_at : Time
  pub last_observed_at : Time
  pub resolved_at : Option Time
  pub opening_frame_id : String
  pub resolution_event_id : Option String
  pub revision : ℕ
  pub details : Evaluation

pub record EventRow : Type 0 where
  pub event_id : String
  pub assignment_id : String
  pub generation : ℕ
  pub incident_id : String
  pub transition : Transition
  pub violation : ViolationType
  pub observed_at : Time
  pub frame_id : String
  pub wal_id : String
  pub wal_sequence : ℕ
  pub evaluation_revision : ℕ
  pub payload_sha256 : String
  pub deviation_m : Float64

pub record SummaryRow : Type 0 where
  pub assignment_id : String
  pub generation : ℕ
  pub evaluation_revision : ℕ
  pub observed_at : UnixNano
  pub payload : Evaluation

-- The columns of a row of the outbox that its delivery changes.
pub record Delivery : Type 0 where
  pub attempt_count : ℕ
  pub next_attempt_at : Time
  pub lease_owner : Option String
  pub lease_generation : ℕ
  pub lease_until : Option Time
  pub delivered_at : Option Time
  pub last_error : Option String

-- The defaults of those columns.
abbrev pub undelivered : Time → Delivery
undelivered now = record {
  attempt_count = 0;
  next_attempt_at = now;
  lease_owner = none;
  lease_generation = 0;
  lease_until = none;
  delivered_at = none;
  last_error = none;
}

abbrev pub violation_name : ViolationType → String
violation_name ViolationType.lateral = "lateral_deviation"
violation_name ViolationType.vertical = "altitude_deviation"
violation_name ViolationType.temporal = "temporal_deviation"
violation_name ViolationType.telemetry_loss = "telemetry_loss"

abbrev pub transition_name : Transition → String
transition_name Transition.opened = "opened"
transition_name Transition.updated = "updated"
transition_name Transition.resolved = "resolved"

abbrev pub same_transition : Transition → Transition → Bool
same_transition Transition.opened Transition.opened = true
same_transition Transition.updated Transition.updated = true
same_transition Transition.resolved Transition.resolved = true
same_transition _ _ = false

-- Equality of double precision values, of which NaN is one.
abbrev pub same_float : Float64 → Float64 → Bool
same_float x y = (is_nan x && is_nan y) || (float_le x y && float_le y x)

-- ON CONFLICT (incident_id): the row has the same immutable opening.
abbrev pub same_opening : IncidentRow → IncidentRow → Bool
same_opening old new =
    old.assignment_id == new.assignment_id
    && old.generation == new.generation
    && same_violation old.violation new.violation
    && old.opened_at == new.opened_at
    && old.opening_frame_id == new.opening_frame_id

-- ON CONFLICT (event_id): the row has the same immutable evidence.
abbrev pub same_evidence : EventRow → EventRow → Bool
same_evidence old new =
    old.assignment_id == new.assignment_id
    && old.generation == new.generation
    && old.incident_id == new.incident_id
    && same_transition old.transition new.transition
    && same_violation old.violation new.violation
    && old.observed_at == new.observed_at
    && old.frame_id == new.frame_id
    && old.wal_id == new.wal_id
    && old.wal_sequence == new.wal_sequence
    && same_float old.deviation_m new.deviation_m
    && old.payload_sha256 == new.payload_sha256

abbrev is_none {ℓ} : {A : Type ℓ} → Option A → Bool
is_none none = true
is_none (some a) = false

abbrev is_open : IncidentRow → Bool
is_open i = is_none i.resolution_event_id

-- Two rows that conformance_one_open_incident or conformance_incident_occurrence keeps apart.
abbrev pub excludes : IncidentRow → IncidentRow → Bool
excludes old new =
    old.assignment_id == new.assignment_id
    && old.generation == new.generation
    && same_violation old.violation new.violation
    && (is_open old || old.opening_frame_id == new.opening_frame_id)
