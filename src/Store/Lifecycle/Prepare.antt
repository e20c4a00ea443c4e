-- ===== src/Store/Lifecycle/Prepare.antt =====
-- Preparing a candidate generation: `PrepareAssignment` and `ApplyAssignment` of
-- internal/store/postgres/store.go. The advisory lock makes each command one step.
use aero_arc_conformance.Prelude.{
  ℕ, Bool, not, ◌&&◌, ◌||◌, ◌==◌, ◌!=◌, nat_eq, string_eq, ltb, if◌then◌else◌, Option, none, some,
  List, [], ◌∷◌, String, is_blank, Result, ok, err, ◌>>=◌, ◌>>◌, fail_if,
}
use aero_arc_conformance.Domain.Time.{Time, after, supported_unix_nanoseconds}
use aero_arc_conformance.Domain.Types.{AssignmentLifecycle}
use aero_arc_conformance.Domain.Assignment.{Assignment}
use aero_arc_conformance.Store.Rows.{undelivered}
use aero_arc_conformance.Store.Tables.{
  ApplyDisposition, applied, idempotent, stale, Row, InboxRow, TransitionRow, OutboxRow,
  received_event, Tables, Codec, StoreError, lifecycle_name, is_candidate, max_int64, max_int32,
  has_id, first, update_where, latest, find_inbox, stable_id,
}

pub record ApplyResult : Type 0 where
  pub disposition : ApplyDisposition
  pub assignment : Assignment

pub record Envelope : Type 0 where
  pub source : String
  pub message_id : String
  pub message_type : String
  pub assignment : Assignment

-- The guard of the envelope.
unfoldable pub is_invalid_envelope : Envelope → Bool
is_invalid_envelope e =
    let a = e.assignment in
    is_blank e.source
    || is_blank e.message_id
    || is_blank e.message_type
    || is_blank a.id
    || a.generation == 0
    || ltb max_int64 a.generation
    || is_blank a.aircraft_id
    || is_blank a.agent_id
    || is_blank a.flight_id
    || is_blank a.intent_id
    || a.intent_version == 0
    || ltb max_int32 a.intent_version
    || is_blank a.policy_version
    || not (after a.effective_until a.effective_from)
    || not (supported_unix_nanoseconds a.effective_from)
    || not (supported_unix_nanoseconds a.effective_until)

-- hex.EncodeToString(sha256.Sum256(envelope)).
abbrev hashed : Codec → Option String → Result StoreError String
hashed codec none = err StoreError.encode_failed
hashed codec (some text) = ok (codec.sha256_hex text)

abbrev pub envelope_hash : Codec → Envelope → Result StoreError String
envelope_hash codec e = hashed codec (codec.marshal_assignment e.message_type e.assignment)

-- What a known message answers.
abbrev pub stored_disposition : Option ApplyDisposition → Result StoreError ApplyDisposition
stored_disposition none = err StoreError.invalid_outcome
stored_disposition (some stale) = ok stale
stored_disposition (some _) = ok idempotent

-- The row that a candidate is inserted as.
unfoldable pub candidate_row : Time → Assignment → Row
candidate_row now a = record {
  assignment = a;
  lifecycle = AssignmentLifecycle.candidate_received;
  authority_from = none;
  authority_until = none;
  authority_until_at = none;
  next_evaluation_at = now;
  lease_owner = none;
  lease_generation = 0;
  lease_until = none;
  evaluation_revision = 0;
  prepared_at = now;
  armed_at = none;
  cutover_at = none;
}

abbrev pub superseded_candidate : Row → Row
superseded_candidate r = record r {
  lifecycle = AssignmentLifecycle.superseded;
  lease_owner = none;
  lease_until = none;
}

-- The candidate of an assignment.
abbrev pub candidate_of : String → Row → Bool
candidate_of id r = has_id id r && is_candidate r.lifecycle

-- The identity that all generations of an assignment share.
unfoldable pub changes_identity : Assignment → Row → Bool
changes_identity a r =
    a.aircraft_id != r.assignment.aircraft_id
    || a.flight_id != r.assignment.flight_id
    || a.intent_id != r.assignment.intent_id

module _ (codec : Codec) (now : Time) (s : Tables) (e : Envelope) (hash : String) where
  unfoldable pub inbox_row : ApplyDisposition → InboxRow
  inbox_row d = record {
    source = e.source;
    message_id = e.message_id;
    payload_sha256 = hash;
    message_type = e.message_type;
    assignment_id = e.assignment.id;
    generation = e.assignment.generation;
    disposition = some d;
  }

  abbrev pub answer : ApplyDisposition → Tables → ApplyResult × Tables
  answer d t = (record { disposition = d; assignment = e.assignment }, t)

  abbrev replay : InboxRow → Result StoreError (ApplyResult × Tables)
  replay i =
      fail_if (i.payload_sha256 != hash) StoreError.message_conflict
      >> stored_disposition i.disposition
      >>= λ d. ok (answer d s)

  abbrev answer_only : ApplyDisposition → ApplyResult × Tables
  answer_only d = answer d (record s { inbox = inbox_row d ∷ s.inbox })

  transition_id : ℕ → AssignmentLifecycle → String
  unfolding stable_id
  transition_id generation target = stable_id codec (
      "assignment-transition"
      ∷ e.source
      ∷ e.message_id
      ∷ codec.sprint generation
      ∷ lifecycle_name target
      ∷ [])

  -- The two transitions: that of the new candidate, and that of the one it replaces.
  unfoldable pub received_transition : TransitionRow
  unfolding transition_id
  received_transition = record {
    transition_id = transition_id e.assignment.generation AssignmentLifecycle.candidate_received;
    source = e.source;
    message_id = e.message_id;
    assignment_id = e.assignment.id;
    generation = e.assignment.generation;
    from_state = none;
    to_state = AssignmentLifecycle.candidate_received;
    effective_at = none;
    payload = received_event e.assignment;
  }

  unfoldable pub replaced_transitions : Option Row → List TransitionRow → List TransitionRow
  unfolding transition_id
  replaced_transitions none ts = ts
  replaced_transitions (some r) ts =
      record {
        transition_id = transition_id r.assignment.generation AssignmentLifecycle.superseded;
        source = e.source;
        message_id = e.message_id;
        assignment_id = e.assignment.id;
        generation = r.assignment.generation;
        from_state = some r.lifecycle;
        to_state = AssignmentLifecycle.superseded;
        effective_at = none;
        payload = received_event e.assignment;
      }
      ∷ ts

  unfoldable pub receipt : OutboxRow
  unfolding stable_id
  receipt =
      let id = stable_id codec ("assignment-received" ∷ e.source ∷ e.message_id ∷ []) in
      record {
        outbox_id = id;
        destination = "api";
        idempotency_key = id;
        assignment_id = e.assignment.id;
        generation = e.assignment.generation;
        evaluation_revision = 0;
        payload = received_event e.assignment;
        delivery = undelivered now;
      }

  -- The inserts and updates of an accepted candidate.
  unfoldable pub insert_candidate : Tables
  unfolding candidate_row inbox_row received_transition replaced_transitions receipt
  insert_candidate = record s {
    assignments =
        candidate_row now e.assignment
        ∷ update_where (candidate_of e.assignment.id) superseded_candidate s.assignments;
    inbox = inbox_row applied ∷ s.inbox;
    transitions =
        replaced_transitions (first (candidate_of e.assignment.id) s.assignments)
          (received_transition ∷ s.transitions);
    outbox = receipt ∷ s.outbox;
  }

  -- The message is new. The newest generation of the assignment decides.
  unfoldable pub apply_candidate : Option Row → Result StoreError (ApplyResult × Tables)
  unfolding changes_identity insert_candidate
  apply_candidate none = ok (answer applied insert_candidate)
  apply_candidate (some current) =
      if ltb e.assignment.generation current.assignment.generation
      then ok (answer_only stale)
      else if e.assignment.generation == current.assignment.generation
      then (if codec.same_json current.assignment e.assignment
          then ok (answer_only idempotent)
          else err StoreError.message_conflict)
      else if changes_identity e.assignment current
      then err StoreError.message_conflict
      else ok (answer applied insert_candidate)

  unfoldable pub prepare_known : Option InboxRow → Result StoreError (ApplyResult × Tables)
  unfolding apply_candidate
  prepare_known (some i) = replay i
  prepare_known none = apply_candidate (latest e.assignment.id s.assignments)

unfoldable pub prepare_assignment :
    Codec → Time → Tables → Envelope → Result StoreError (ApplyResult × Tables)
unfolding is_invalid_envelope prepare_known
prepare_assignment codec now s e =
    fail_if (is_invalid_envelope e) StoreError.invalid_command >> envelope_hash codec e >>= λ hash.
    prepare_known codec now s e hash (find_inbox s e.source e.message_id)
