-- ===== src/Store/Write.antt =====
-- What an evaluation writes: `writeEvaluation` of internal/store/postgres/store.go. A violated
-- constraint of a table is an error of the statement, which rolls the transaction back.
use Prim.Native.String.{◌++◌}
use aero_arc_conformance.Prelude.{
  ℕ, ◌+◌, Bool, true, false, not, ◌&&◌, ◌||◌, ◌==◌, nat_eq, string_eq, ltb, leb, if◌then◌else◌,
  Option, none, some, List, [], ◌∷◌, String, Result, ok, err, ◌>>=◌, ◌>>◌, fail_if, any_of,
}
use aero_arc_conformance.Domain.Time.{Time, unix_nano}
use aero_arc_conformance.Domain.Types.{RecordingStatus, Transition, same_violation}
use aero_arc_conformance.Domain.Assignment.{Assignment}
use aero_arc_conformance.Domain.Incident.{IncidentTransition, Evaluation}
use aero_arc_conformance.Store.Rows.{
  CheckpointRow, IncidentRow, EventRow, SummaryRow, undelivered, violation_name, transition_name,
  same_opening, same_evidence, excludes,
}
use aero_arc_conformance.Store.Tables.{
  Tables, Codec, StoreError, OutboxRow, evaluated, first, stable_id,
}
use aero_arc_conformance.Store.Commit.{Sign, compare_evaluation_cursor}
use aero_arc_conformance.Store.Leases.{count_where}

abbrev pub is_checkpoint_of : String → ℕ → CheckpointRow → Bool
is_checkpoint_of id generation c = c.assignment_id == id && c.generation == generation

abbrev pub newer_checkpoint : CheckpointRow → Option CheckpointRow → CheckpointRow
newer_checkpoint c none = c
newer_checkpoint c (some d) = if ltb c.evaluation_revision d.evaluation_revision then d else c

-- ORDER BY evaluation_revision DESC LIMIT 1.
unfoldable pub newest_checkpoint : String → ℕ → List CheckpointRow → Option CheckpointRow
newest_checkpoint id generation [] = none
newest_checkpoint id generation (c ∷ cs) =
    let rest = newest_checkpoint id generation cs in
    if is_checkpoint_of id generation c then some (newer_checkpoint c rest) else rest

-- A cursor before the newest one is stale, and so is the same one unless it is allowed.
abbrev pub is_stale : Bool → Sign → Bool
is_stale allow_equal Sign.less = true
is_stale allow_equal Sign.equal = not allow_equal
is_stale allow_equal Sign.greater = false

unfoldable pub check_watermark :
    Evaluation → Bool → Option CheckpointRow → Result StoreError (Unit {0})
check_watermark e allow_equal none = ok tt
check_watermark e allow_equal (some c) =
    fail_if
      (is_stale allow_equal
        (compare_evaluation_cursor e c.state_through_at c.wal_id c.wal_sequence c.frame_id))
      StoreError.stale_evaluation

-- encoding/json of a value: the text, or an error.
abbrev pub encoded : Option String → Result StoreError String
encoded none = err StoreError.encode_failed
encoded (some text) = ok text

-- The two unique columns of the outbox.
abbrev pub same_message : OutboxRow → OutboxRow → Bool
same_message new o = o.outbox_id == new.outbox_id || o.idempotency_key == new.idempotency_key

-- `e` is the evaluation that is recorded as confirmed.
module _ (codec : Codec) (a : Assignment) (revision : ℕ) (e : Evaluation) where
  unfoldable pub incident_id : IncidentTransition → String
  unfolding stable_id
  incident_id t = stable_id codec (
      "incident"
      ∷ a.id
      ∷ codec.sprint a.generation
      ∷ violation_name t.violation
      ∷ t.opening_frame_id
      ∷ [])

  unfoldable pub event_id : IncidentTransition → String
  unfolding stable_id
  event_id t = stable_id codec (
      "event"
      ∷ a.id
      ∷ codec.sprint a.generation
      ∷ violation_name t.violation
      ∷ transition_name t.transition
      ∷ t.frame_id
      ∷ [])

  unfoldable pub opened_incident : IncidentTransition → IncidentRow
  unfolding incident_id
  opened_incident t = record {
    incident_id = incident_id t;
    assignment_id = a.id;
    generation = a.generation;
    violation = t.violation;
    opened_at = codec.timestamptz t.observed_at;
    last_observed_at = codec.timestamptz t.observed_at;
    resolved_at = none;
    opening_frame_id = t.opening_frame_id;
    resolution_event_id = none;
    revision = 1;
    details = e;
  }

  -- INSERT INTO conformance_incidents, given the row that has the same identity.
  unfoldable pub insert_incident :
      IncidentRow → List IncidentRow → Option IncidentRow → Result StoreError (List IncidentRow)
  insert_incident new rows none =
      fail_if (any_of (λ old. excludes old new) rows) StoreError.constraint_violation
      >> ok (new ∷ rows)
  insert_incident new rows (some old) =
      if same_opening old new then ok rows else err StoreError.message_conflict

  -- The incident that a resolution is about.
  unfoldable pub is_opening : IncidentTransition → IncidentRow → Bool
  is_opening t i =
      i.assignment_id == a.id
      && i.generation == a.generation
      && same_violation i.violation t.violation
      && i.opening_frame_id == t.opening_frame_id
      && leb i.opened_at (codec.timestamptz t.observed_at)

  abbrev opening_or_error :
      List IncidentRow → Option IncidentRow → Result StoreError (String × List IncidentRow)
  opening_or_error rows none = err StoreError.incident_not_found
  opening_or_error rows (some i) = ok (i.incident_id, rows)

  -- The incident's identity, and the incidents after its insertion.
  unfoldable pub mutate_incident :
      IncidentTransition
      → Transition
      → List IncidentRow
      → Result StoreError (String × List IncidentRow)
  unfolding incident_id opened_incident insert_incident is_opening
  mutate_incident t Transition.opened rows =
      insert_incident (opened_incident t) rows (first (λ i. i.incident_id == incident_id t) rows)
      >>= λ rows. ok (incident_id t, rows)
  mutate_incident t Transition.resolved rows = opening_or_error rows (first (is_opening t) rows)
  mutate_incident t Transition.updated rows = ok (incident_id t, rows)

  unfoldable pub event_row : IncidentTransition → String → String → EventRow
  unfolding event_id
  event_row t incident hash = record {
    event_id = event_id t;
    assignment_id = a.id;
    generation = a.generation;
    incident_id = incident;
    transition = t.transition;
    violation = t.violation;
    observed_at = codec.timestamptz t.observed_at;
    frame_id = t.frame_id;
    wal_id = t.wal_id;
    wal_sequence = t.wal_sequence;
    evaluation_revision = revision;
    payload_sha256 = hash;
    deviation_m = t.deviation_m;
  }

  -- INSERT INTO conformance_events, given the row that has the same identity. The incident must exist.
  unfoldable pub insert_event :
      EventRow
      → List IncidentRow
      → List EventRow
      → Option EventRow
      → Result StoreError (List EventRow)
  insert_event new incidents rows none =
      fail_if (not (any_of (λ i. i.incident_id == new.incident_id) incidents))
        StoreError.constraint_violation
      >> ok (new ∷ rows)
  insert_event new incidents rows (some old) =
      if same_evidence old new then ok rows else err StoreError.message_conflict

  abbrev is_incident : IncidentTransition → String → IncidentRow → Bool
  is_incident t incident i =
      i.incident_id == incident
      && i.assignment_id == a.id
      && i.generation == a.generation
      && same_violation i.violation t.violation

  abbrev is_other : String → Option String → Bool
  is_other id none = true
  is_other id (some old) = not (old == id)

  abbrev resolved_incident : IncidentTransition → String → IncidentRow → IncidentRow
  resolved_incident t event i = record i {
    resolved_at = some (codec.timestamptz t.observed_at);
    resolution_event_id = some event;
    last_observed_at = codec.timestamptz t.observed_at;
    revision = i.revision + (if is_other event i.resolution_event_id then 1 else 0);
    details = e;
  }

  abbrev update_incidents :
      (IncidentRow → Bool) → (IncidentRow → IncidentRow) → List IncidentRow → List IncidentRow
  update_incidents p f [] = []
  update_incidents p f (i ∷ is) = (if p i then f i else i) ∷ update_incidents p f is

  -- The update that follows the event of a resolution.
  unfoldable pub materialize :
      IncidentTransition
      → Transition
      → String
      → List IncidentRow
      → Result StoreError (List IncidentRow)
  unfolding event_id
  materialize t Transition.resolved incident rows =
      fail_if (not (count_where (is_incident t incident) rows == 1)) StoreError.incident_not_found
      >> ok (update_incidents (is_incident t incident) (resolved_incident t (event_id t)) rows)
  materialize t _ incident rows = ok rows

  -- From the evidence of a transition on, given its incident and the incidents so far.
  unfoldable pub write_event :
      IncidentTransition → Tables → String × List IncidentRow → Result StoreError Tables
  unfolding event_row insert_event materialize
  write_event t s (incident, incidents) = encoded (codec.marshal_evidence incident t) >>= λ text.
      let new = event_row t incident (codec.sha256_hex text) in
      insert_event new incidents s.events (first (λ old. old.event_id == new.event_id) s.events)
      >>= λ events. materialize t t.transition incident incidents >>= λ incidents.
          ok (record s { incidents = incidents; events = events })

  unfoldable pub write_transition : IncidentTransition → Tables → Result StoreError Tables
  unfolding mutate_incident write_event
  write_transition t s = mutate_incident t t.transition s.incidents >>= write_event t s

  unfoldable pub write_transitions : List IncidentTransition → Tables → Result StoreError Tables
  unfolding write_transition
  write_transitions [] s = ok s
  write_transitions (t ∷ ts) s = write_transition t s >>= λ s. write_transitions ts s

  unfoldable pub checkpoint_row : CheckpointRow
  checkpoint_row = record {
    assignment_id = a.id;
    generation = a.generation;
    evaluation_revision = revision;
    state_through_at = unix_nano e.observed_at;
    wal_id = e.wal_id;
    wal_sequence = e.wal_sequence;
    frame_id = e.frame_id;
    evaluator_state = e.state;
  }

  unfoldable pub insert_checkpoint : List CheckpointRow → Result StoreError (List CheckpointRow)
  unfolding checkpoint_row
  insert_checkpoint rows =
      fail_if
        (any_of (λ c. is_checkpoint_of a.id a.generation c && c.evaluation_revision == revision)
          rows)
        StoreError.constraint_violation
      >> ok (checkpoint_row ∷ rows)

  unfoldable pub summary_row : SummaryRow
  summary_row = record {
    assignment_id = a.id;
    generation = a.generation;
    evaluation_revision = revision;
    observed_at = unix_nano e.observed_at;
    payload = e;
  }

  -- ON CONFLICT (assignment_id, assignment_generation) DO UPDATE.
  unfoldable pub upsert_summary : List SummaryRow → List SummaryRow
  unfolding summary_row
  upsert_summary [] = summary_row ∷ []
  upsert_summary (w ∷ ws) =
      let rest = upsert_summary ws in
      if w.assignment_id == a.id && w.generation == a.generation then summary_row ∷ ws else w ∷ rest

  unfoldable pub registry_row : Time → OutboxRow
  registry_row now =
      let id =
        "registry:"
        ++ (a.id ++ (":" ++ (codec.sprint a.generation ++ (":" ++ codec.sprint revision)))) in
      record {
        outbox_id = id;
        destination = "registry";
        idempotency_key = id;
        assignment_id = a.id;
        generation = a.generation;
        evaluation_revision = revision;
        payload = evaluated e;
        delivery = undelivered now;
      }

  -- ON CONFLICT DO NOTHING.
  unfoldable pub enqueue : OutboxRow → List OutboxRow → List OutboxRow
  enqueue new rows = if any_of (same_message new) rows then rows else new ∷ rows

  -- From the transitions on.
  unfoldable pub write_confirmed : Time → Bool → Tables → Result StoreError Tables
  unfolding write_transitions insert_checkpoint upsert_summary registry_row enqueue
  write_confirmed now publish_live s =
      encoded (codec.marshal_evaluation e)
      >> encoded (codec.marshal_state e.state)
      >> write_transitions e.transitions s
      >>= λ t. insert_checkpoint t.checkpoints >>= λ checkpoints. ok (record t {
        checkpoints = checkpoints;
        summaries = upsert_summary t.summaries;
        outbox = if publish_live then enqueue (registry_row now) t.outbox else t.outbox;
      })

abbrev pub confirmed : Evaluation → Evaluation
confirmed e = record e { recording = RecordingStatus.confirmed }

unfoldable pub write_evaluation :
    Codec → Time → Tables → Assignment → ℕ → Evaluation → Bool → Bool → Result StoreError Tables
unfolding check_watermark newest_checkpoint write_confirmed
write_evaluation codec now s a revision e allow_equal publish_live =
    check_watermark e allow_equal (newest_checkpoint a.id a.generation s.checkpoints)
    >> write_confirmed codec a revision (confirmed e) now publish_live s
