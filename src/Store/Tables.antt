-- ===== src/Store/Tables.antt =====
-- The tables of the store and the queries that its transactions share: `Store` of
-- internal/store/postgres/store.go, with the columns that some query reads.
use aero_arc_conformance.Prelude.{
  ℕ, Bool, true, false, ◌&&◌, ◌==◌, nat_eq, string_eq, ltb, if◌then◌else◌, Option, none, some, List,
  [], ◌∷◌, map, String, Result, ok, err,
}
use Prim.Native.String.{◌++◌}
use aero_arc_conformance.Domain.Incident.{EvaluatorState, Evaluation, IncidentTransition}
use aero_arc_conformance.Store.Rows.{CheckpointRow, IncidentRow, EventRow, SummaryRow, Delivery}
use aero_arc_conformance.Domain.Time.{Time, Duration, UnixNano, from_unix_nano}
use aero_arc_conformance.Domain.Types.{AssignmentLifecycle}
use aero_arc_conformance.Domain.Assignment.{Assignment, AssignmentRecord}

pub data ApplyDisposition : Type 0 where
  applied idempotent stale : ApplyDisposition

pub record LifecycleCommand : Type 0 where
  pub assignment_id : String
  pub generation : ℕ  -- uint64
  pub effective_at : Option Time

-- A row of conformance_assignments. `authority_until_at` is its column of type timestamptz.
pub record Row : Type 0 where
  pub assignment : Assignment
  pub lifecycle : AssignmentLifecycle
  pub authority_from : Option UnixNano
  pub authority_until : Option UnixNano
  pub authority_until_at : Option Time
  pub next_evaluation_at : Time
  pub lease_owner : Option String
  pub lease_generation : ℕ
  pub lease_until : Option Time
  pub evaluation_revision : ℕ
  pub prepared_at : Time
  pub armed_at : Option Time
  pub cutover_at : Option Time

-- A row of conformance_inbox. The disposition is none where the outcome has no valid one.
pub record InboxRow : Type 0 where
  pub source : String
  pub message_id : String
  pub payload_sha256 : String
  pub message_type : String
  pub assignment_id : String
  pub generation : ℕ
  pub disposition : Option ApplyDisposition

-- The JSON documents that go into transitions and the outbox.
pub data Payload : Type 0 where
  received_event : Assignment → Payload
  command_envelope : String → Payload
  evaluated : Evaluation → Payload

pub record TransitionRow : Type 0 where
  pub transition_id : String
  pub source : String
  pub message_id : String
  pub assignment_id : String
  pub generation : ℕ
  pub from_state : Option AssignmentLifecycle
  pub to_state : AssignmentLifecycle
  pub effective_at : Option Time
  pub payload : Payload

pub record OutboxRow : Type 0 where
  pub outbox_id : String
  pub destination : String
  pub idempotency_key : String
  pub assignment_id : String
  pub generation : ℕ
  pub evaluation_revision : ℕ
  pub payload : Payload
  pub delivery : Delivery

-- The newest row of a table is its first.
pub record Tables : Type 0 where
  pub assignments : List Row
  pub inbox : List InboxRow
  pub transitions : List TransitionRow
  pub outbox : List OutboxRow
  pub summaries : List SummaryRow
  pub checkpoints : List CheckpointRow
  pub incidents : List IncidentRow
  pub events : List EventRow

-- The packages that the store calls: encoding/json (none is an error), crypto/sha256 with
-- encoding/hex, fmt.Sprint, fmt.Fprintf with "%d:%s" on a text and its length, the equality of jsonb,
-- the precision of timestamptz, and its sum with an interval read from the text of a Duration.
pub record Codec : Type 0 where
  pub marshal_assignment : String → Assignment → Option String
  pub marshal_command : String → LifecycleCommand → Option String
  pub sha256_hex : String → String
  pub sprint : ℕ → String
  pub frame_part : String → String
  pub same_json : Assignment → Assignment → Bool
  pub timestamptz : Time → Time
  pub marshal_evaluation : Evaluation → Option String
  pub marshal_state : EvaluatorState → Option String
  pub marshal_evidence : String → IncidentTransition → Option String
  pub plus_interval : Time → Duration → Time

pub data StoreError : Type 0 where
  invalid_command encode_failed message_conflict stale_assignment invalid_transition : StoreError
  invalid_outcome corrupt_row assignment_not_found incomplete_evaluation : StoreError
  invalid_arguments lease_lost stale_evaluation invalid_target incident_not_found : StoreError
  constraint_violation outbox_lease_lost : StoreError

abbrev pub lifecycle_name : AssignmentLifecycle → String
lifecycle_name AssignmentLifecycle.candidate_received = "candidate_received"
lifecycle_name AssignmentLifecycle.candidate_armed = "candidate_armed"
lifecycle_name AssignmentLifecycle.active = "active"
lifecycle_name AssignmentLifecycle.ending = "ending"
lifecycle_name AssignmentLifecycle.completed = "completed"
lifecycle_name AssignmentLifecycle.cancelled = "cancelled"
lifecycle_name AssignmentLifecycle.superseded = "superseded"

abbrev pub is_received : AssignmentLifecycle → Bool
is_received AssignmentLifecycle.candidate_received = true
is_received _ = false

abbrev pub is_armed : AssignmentLifecycle → Bool
is_armed AssignmentLifecycle.candidate_armed = true
is_armed _ = false

-- lifecycle_state IN ('candidate_received','candidate_armed').
abbrev pub is_candidate : AssignmentLifecycle → Bool
is_candidate AssignmentLifecycle.candidate_received = true
is_candidate AssignmentLifecycle.candidate_armed = true
is_candidate _ = false

-- lifecycle_state IN ('active','ending').
abbrev pub is_current : AssignmentLifecycle → Bool
is_current AssignmentLifecycle.active = true
is_current AssignmentLifecycle.ending = true
is_current _ = false

abbrev pub max_int64 : ℕ
max_int64 = 9223372036854775807

abbrev pub max_int32 : ℕ
max_int32 = 2147483647

-- assignment_id=$1.
abbrev pub has_id : String → Row → Bool
has_id id r = r.assignment.id == id

-- assignment_id=$1 AND assignment_generation=$2.
abbrev pub has_key : String → ℕ → Row → Bool
has_key id generation r = has_id id r && r.assignment.generation == generation

abbrev pub first {ℓ} : {A : Type ℓ} → (A → Bool) → List A → Option A
first p [] = none
first p (x ∷ xs) = if p x then some x else first p xs

-- UPDATE ... SET f WHERE p.
abbrev pub update_where : (Row → Bool) → (Row → Row) → List Row → List Row
update_where p f [] = []
update_where p f (r ∷ rs) = (if p r then f r else r) ∷ update_where p f rs

abbrev newer : Row → Option Row → Row
newer r none = r
newer r (some s) = if ltb r.assignment.generation s.assignment.generation then s else r

-- ORDER BY assignment_generation DESC LIMIT 1.
unfoldable pub latest : String → List Row → Option Row
latest id [] = none
latest id (r ∷ rs) = let rest = latest id rs in if has_id id r then some (newer r rest) else rest

unfoldable pub find_inbox : Tables → String → String → Option InboxRow
find_inbox s source message_id =
    first (λ i. i.source == source && i.message_id == message_id) s.inbox

abbrev map_option {ℓ} : {A B : Type ℓ} → (A → B) → Option A → Option B
map_option f none = none
map_option f (some a) = some (f a)

-- scanAssignmentRecord.
unfoldable pub record_of : Row → AssignmentRecord
record_of r = record {
  assignment = r.assignment;
  lifecycle = r.lifecycle;
  authority_from = map_option from_unix_nano r.authority_from;
  authority_until = map_option from_unix_nano r.authority_until;
  prepared_at = r.prepared_at;
  armed_at = r.armed_at;
  cutover_at = r.cutover_at;
}

abbrev record_or : StoreError → Option Row → Result StoreError AssignmentRecord
record_or e none = err e
record_or e (some r) = ok (record_of r)

-- A missing row is ErrInvalidTransition here.
unfoldable pub read_assignment_record : Tables → String → ℕ → Result StoreError AssignmentRecord
read_assignment_record s id generation =
    record_or StoreError.invalid_transition (first (has_key id generation) s.assignments)

abbrev concat : List String → String
concat [] = ""
concat (p ∷ ps) = p ++ concat ps

unfoldable pub stable_id : Codec → List String → String
stable_id codec parts = codec.sha256_hex (concat (map codec.frame_part parts))
