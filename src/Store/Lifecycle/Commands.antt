-- ===== src/Store/Lifecycle/Commands.antt =====
-- Arming and cancelling a candidate, and what the lifecycle commands share: `ArmAssignment`,
-- `CancelCandidate`, `transitionCandidate`, `encodeCommand` and `recordLifecycleCommand` of
-- internal/store/postgres/store.go.
use aero_arc_conformance.Prelude.{
  ℕ, Bool, false, not, ◌&&◌, ◌||◌, ◌==◌, ◌!=◌, nat_eq, string_eq, ltb, Option, none, some, [], ◌∷◌,
  String, is_blank, Result, ok, err, ◌>>=◌, ◌>>◌, fail_if,
}
use aero_arc_conformance.Domain.Time.{Time}
use aero_arc_conformance.Domain.Types.{AssignmentLifecycle}
use aero_arc_conformance.Domain.Assignment.{AssignmentRecord}
use aero_arc_conformance.Store.Rows.{undelivered}
use aero_arc_conformance.Store.Tables.{
  ApplyDisposition, applied, idempotent, LifecycleCommand, Row, InboxRow, TransitionRow,
  command_envelope, Tables, Codec, StoreError, lifecycle_name, is_candidate, is_received, max_int64,
  has_key, update_where, latest, find_inbox, read_assignment_record, stable_id,
}

pub record LifecycleResult : Type 0 where
  pub disposition : ApplyDisposition
  pub found : AssignmentRecord

-- A command with its message, as the store receives it.
pub record Message : Type 0 where
  pub source : String
  pub message_id : String
  pub message_type : String
  pub command : LifecycleCommand

unfoldable pub is_invalid_message : Message → Bool
is_invalid_message m =
    is_blank m.source
    || is_blank m.message_id
    || is_blank m.command.assignment_id
    || m.command.generation == 0
    || ltb max_int64 m.command.generation

-- The envelope and its hash.
unfoldable pub encode_command : Codec → Message → Result StoreError (String × String)
encode_command codec m = elim (codec.marshal_command m.message_type m.command) [
  | none ↦ err StoreError.encode_failed
  | some text ↦ ok (text, codec.sha256_hex text)
]

abbrev pub command_id : Message → String
command_id m = m.command.assignment_id

module _ (codec : Codec) (s : Tables) (m : Message) where
  abbrev pub read_command_record : Result StoreError AssignmentRecord
  read_command_record = read_assignment_record s (command_id m) m.command.generation

  -- The answer to a message that the inbox holds.
  unfoldable pub replay_command : InboxRow → String → Result StoreError (LifecycleResult × Tables)
  replay_command i hash =
      fail_if (i.payload_sha256 != hash) StoreError.message_conflict >> read_command_record >>= λ r.
      ok (record { disposition = idempotent; found = r }, s)

  unfoldable pub command_inbox_row : String → InboxRow
  command_inbox_row hash = record {
    source = m.source;
    message_id = m.message_id;
    payload_sha256 = hash;
    message_type = m.message_type;
    assignment_id = command_id m;
    generation = m.command.generation;
    disposition = some applied;
  }

  unfoldable pub command_transition :
      ℕ → AssignmentLifecycle → AssignmentLifecycle → String → TransitionRow
  unfolding stable_id
  command_transition generation from to payload = record {
    transition_id = stable_id codec (
        "assignment-transition"
        ∷ m.source
        ∷ m.message_id
        ∷ codec.sprint generation
        ∷ lifecycle_name to
        ∷ []);
    source = m.source;
    message_id = m.message_id;
    assignment_id = command_id m;
    generation = generation;
    from_state = some from;
    to_state = to;
    effective_at = m.command.effective_at;
    payload = command_envelope payload;
  }

  -- The inbox entry, the transition and the outbox entry of an applied command.
  unfoldable pub record_lifecycle_command :
      Time → AssignmentLifecycle → AssignmentLifecycle → String × String → Tables
  unfolding command_inbox_row command_transition stable_id
  record_lifecycle_command now from to (payload, hash) =
      let outbox_id = stable_id codec ("assignment-lifecycle" ∷ m.source ∷ m.message_id ∷ []) in
      record s {
        inbox = command_inbox_row hash ∷ s.inbox;
        transitions = command_transition m.command.generation from to payload ∷ s.transitions;
        outbox =
            record {
              outbox_id = outbox_id;
              destination = "api";
              idempotency_key = outbox_id;
              assignment_id = command_id m;
              generation = m.command.generation;
              evaluation_revision = 0;
              payload = command_envelope payload;
              delivery = undelivered now;
            }
            ∷ s.outbox;
      }

  -- A command that leaves the tables `s` has applied: the record is read again.
  abbrev pub finish : Result StoreError (LifecycleResult × Tables)
  finish = read_command_record >>= λ r. ok (record { disposition = applied; found = r }, s)

-- The two targets of a candidate.
pub data Target : Type 0 where
  arm cancel : Target

abbrev pub target_state : Target → AssignmentLifecycle
target_state arm = AssignmentLifecycle.candidate_armed
target_state cancel = AssignmentLifecycle.cancelled

abbrev pub target_type : Target → String
target_type arm = "assignment_armed"
target_type cancel = "assignment_cancelled"

-- The states from which the target can be reached.
abbrev pub reaches : Target → AssignmentLifecycle → Bool
reaches arm from = is_received from
reaches cancel from = is_candidate from

abbrev pub with_target : Time → Target → Row → Row
with_target now arm r = record r {
  lifecycle = AssignmentLifecycle.candidate_armed;
  armed_at = some now;
}
with_target now cancel r = record r {
  lifecycle = AssignmentLifecycle.cancelled;
  lease_owner = none;
  lease_until = none;
}

abbrev pub is_latest : Tables → Message → Bool
is_latest s m = elim (latest (command_id m) s.assignments) [
  | none ↦ false
  | some r ↦ m.command.generation == r.assignment.generation
]

module _ (codec : Codec) (now : Time) (s : Tables) (target : Target) (m : Message) where
  abbrev pub set_target : Tables
  set_target = record s {
    assignments =
        update_where
          (λ r. has_key (command_id m) m.command.generation r && reaches target r.lifecycle)
          (with_target now target) s.assignments;
  }

  unfoldable pub transition_found :
      String × String → AssignmentRecord → Result StoreError (LifecycleResult × Tables)
  unfolding record_lifecycle_command
  transition_found encoded r =
      fail_if (not (is_latest s m)) StoreError.stale_assignment
      >> fail_if (not (reaches target r.lifecycle)) StoreError.invalid_transition
      >> finish codec
          (record_lifecycle_command codec set_target m now r.lifecycle (target_state target)
            encoded)
          m

  unfoldable pub transition_known :
      String × String → Option InboxRow → Result StoreError (LifecycleResult × Tables)
  unfolding replay_command transition_found
  transition_known encoded (some i) = replay_command codec s m i encoded.1
  transition_known encoded none = read_command_record codec s m >>= transition_found encoded

abbrev pub candidate_message : Target → String → String → String → ℕ → Message
candidate_message target source message_id id generation = record {
  source = source;
  message_id = message_id;
  message_type = target_type target;
  command = record { assignment_id = id; generation = generation; effective_at = none };
}

-- Arming and cancelling.
unfoldable pub transition_candidate :
    Codec
    → Time
    → Tables
    → Target
    → String
    → String
    → String
    → ℕ
    → Result StoreError (LifecycleResult × Tables)
unfolding is_invalid_message encode_command transition_known
transition_candidate codec now s target source message_id id generation =
    let m = candidate_message target source message_id id generation in
    fail_if (is_invalid_message m) StoreError.invalid_command
    >> encode_command codec m
    >>= λ encoded. transition_known codec now s target m encoded (find_inbox s source message_id)
