-- ===== src/Store/Lifecycle/Cutover.antt =====
-- Moving the authority to an armed candidate, and the authority at a time: `CutoverAssignment`,
-- `ResolveAssignmentAt` and `GetAssignment` of internal/store/postgres/store.go.
use aero_arc_conformance.Prelude.{
  ℕ, Bool, true, false, not, ◌&&◌, ◌||◌, ◌==◌, nat_eq, string_eq, ltb, leb, if◌then◌else◌, Option,
  none, some, List, [], ◌∷◌, String, is_blank, Result, ok, err, ◌>>=◌, ◌>>◌, fail_if,
}
use aero_arc_conformance.Domain.Time.{
  Time, UnixNano, is_zero, before, after, supported_unix_nanoseconds, unix_nano,
}
use aero_arc_conformance.Domain.Types.{AssignmentLifecycle}
use aero_arc_conformance.Domain.Assignment.{AssignmentRecord}
use aero_arc_conformance.Store.Rows.{SummaryRow}
use aero_arc_conformance.Store.Tables.{
  Row, InboxRow, Tables, Codec, StoreError, is_current, is_armed, max_int64, has_id, has_key, first,
  update_where, find_inbox, record_of,
}
use aero_arc_conformance.Store.Lifecycle.Commands.{
  LifecycleResult, Message, command_id, is_invalid_message, encode_command, replay_command,
  read_command_record, record_lifecycle_command, command_transition, finish,
}

-- The row that has the authority of an assignment.
abbrev pub current_of : String → Row → Bool
current_of id r = has_id id r && is_current r.lifecycle

-- The event-time watermark of a generation.
abbrev pub watermark_of : Tables → String → ℕ → Option SummaryRow
watermark_of s id generation =
    first (λ w. w.assignment_id == id && w.generation == generation) s.summaries

abbrev reaches_boundary : UnixNano → Option SummaryRow → Bool
reaches_boundary boundary none = false
reaches_boundary boundary (some w) = leb boundary w.observed_at

-- The tests on the current generation, whose authority is `from` up to `until`.
unfoldable pub check_current :
    UnixNano → ℕ → Row → UnixNano → UnixNano → Option SummaryRow → Result StoreError (Unit {0})
check_current boundary generation current from until watermark =
    fail_if
      (leb generation current.assignment.generation || leb boundary from || ltb until boundary)
      StoreError.stale_assignment
    >> fail_if (reaches_boundary boundary watermark) StoreError.invalid_transition

module _ (codec : Codec) (now : Time) (effective_at : Time) where
  abbrev pub superseded_current : Row → Row
  superseded_current r = record r {
    lifecycle = AssignmentLifecycle.superseded;
    authority_until = some (unix_nano effective_at);
    authority_until_at = some (codec.timestamptz effective_at);
    lease_owner = none;
    lease_until = none;
  }

  abbrev pub activated : Time → Row → Row
  activated until r = record r {
    lifecycle = AssignmentLifecycle.active;
    authority_from = some (unix_nano effective_at);
    authority_until = some (unix_nano until);
    authority_until_at = some (codec.timestamptz until);
    cutover_at = some (codec.timestamptz effective_at);
    next_evaluation_at = now;
    lease_owner = none;
    lease_until = none;
  }

  module _ (s : Tables) (m : Message) where
    -- The two updates of the assignments.
    abbrev pub close_current : ℕ → List Row → List Row
    close_current generation rs =
        update_where (λ r. has_key (command_id m) generation r && is_current r.lifecycle)
          superseded_current rs

    abbrev pub activate : Time → List Row → List Row
    activate until rs =
        update_where (λ r. has_key (command_id m) m.command.generation r && is_armed r.lifecycle)
          (activated until) rs

    -- An authority that is not an interval cannot be scanned.
    unfoldable pub check_interval :
        Row → Option UnixNano → Option UnixNano → Result StoreError (Unit {0})
    unfolding check_current
    check_interval current none until = err StoreError.corrupt_row
    check_interval current (some from) none = err StoreError.corrupt_row
    check_interval current (some from) (some until) =
        check_current (unix_nano effective_at) m.command.generation current from until
          (watermark_of s (command_id m) current.assignment.generation)

    -- The current generation, if there is one, may be closed at the boundary.
    unfoldable pub closable : Option Row → Result StoreError (Unit {0})
    unfolding check_interval
    closable none = ok tt
    closable (some current) = check_interval current current.authority_from current.authority_until

    abbrev pub closed : Option Row → List Row → List Row
    closed none rs = rs
    closed (some current) rs = close_current current.assignment.generation rs

    abbrev record_superseded : Option Row → String → Tables → Tables
    record_superseded none payload t = t
    record_superseded (some current) payload t =
        if current.assignment.generation == 0 then t else record t {
          transitions =
              command_transition codec t m current.assignment.generation current.lifecycle
                AssignmentLifecycle.superseded payload
              ∷ t.transitions;
        }

    -- The tables after a cutover.
    unfoldable pub cut_over_tables : String × String → AssignmentRecord → Option Row → Tables
    unfolding record_lifecycle_command command_transition
    cut_over_tables encoded candidate current =
        let until = candidate.assignment.effective_until in
        let moved = record s { assignments = activate until (closed current s.assignments) } in
        record_superseded current encoded.0 (
          record_lifecycle_command codec moved m now AssignmentLifecycle.candidate_armed
            AssignmentLifecycle.active encoded)

    -- The candidate is armed and its window holds the boundary.
    unfoldable pub cut_over :
        String × String
        → AssignmentRecord
        → Option Row
        → Result StoreError (LifecycleResult × Tables)
    unfolding closable cut_over_tables
    cut_over encoded candidate current =
        closable current >> finish codec (cut_over_tables encoded candidate current) m

    unfoldable pub cut_over_found :
        String × String → AssignmentRecord → Result StoreError (LifecycleResult × Tables)
    unfolding cut_over
    cut_over_found encoded candidate =
        fail_if (not (is_armed candidate.lifecycle)) StoreError.invalid_transition
        >> fail_if
            (before effective_at candidate.assignment.effective_from
              || not (before effective_at candidate.assignment.effective_until))
            StoreError.invalid_transition
        >> cut_over encoded candidate (first (current_of (command_id m)) s.assignments)

    unfoldable pub cutover_known :
        String × String → Option InboxRow → Result StoreError (LifecycleResult × Tables)
    unfolding replay_command cut_over_found
    cutover_known encoded (some i) = replay_command codec s m i encoded.1
    cutover_known encoded none =
        fail_if (after effective_at now) StoreError.invalid_transition
        >> read_command_record codec s m
        >>= cut_over_found encoded

abbrev pub cutover_message : String → String → String → ℕ → Time → Message
cutover_message source message_id id generation effective_at = record {
  source = source;
  message_id = message_id;
  message_type = "assignment_cutover";
  command = record {
    assignment_id = id;
    generation = generation;
    effective_at = some effective_at;
  };
}

unfoldable pub cutover_assignment :
    Codec
    → Time
    → Tables
    → String
    → String
    → String
    → ℕ
    → Time
    → Result StoreError (LifecycleResult × Tables)
unfolding is_invalid_message encode_command cutover_known
cutover_assignment codec now s source message_id id generation effective_at =
    let m = cutover_message source message_id id generation effective_at in
    fail_if (is_invalid_message m || is_zero effective_at) StoreError.invalid_command
    >> fail_if (not (supported_unix_nanoseconds effective_at)) StoreError.invalid_command
    >> encode_command codec m
    >>= λ encoded. cutover_known codec now effective_at s m encoded (find_inbox s source message_id)

-- authority_from_unix_ns<=$2 AND (authority_until_unix_ns IS NULL OR $2<authority_until_unix_ns).
abbrev begins_by : UnixNano → Option UnixNano → Bool
begins_by t none = false
begins_by t (some from) = leb from t

abbrev ends_after : UnixNano → Option UnixNano → Bool
ends_after t none = true
ends_after t (some until) = ltb t until

abbrev pub covers : String → UnixNano → Row → Bool
covers id t r = has_id id r && (begins_by t r.authority_from && ends_after t r.authority_until)

abbrev starts_later : Option UnixNano → Option UnixNano → Bool
starts_later (some a) (some b) = ltb a b
starts_later _ _ = false

abbrev later_start : Row → Option Row → Row
later_start r none = r
later_start r (some q) = if starts_later r.authority_from q.authority_from then q else r

-- ORDER BY authority_from_unix_ns DESC LIMIT 1.
unfoldable pub resolve : String → UnixNano → List Row → Option Row
resolve id t [] = none
resolve id t (r ∷ rs) =
    let rest = resolve id t rs in if covers id t r then some (later_start r rest) else rest

abbrev found_record : Option Row → Option AssignmentRecord
found_record none = none
found_record (some r) = some (record_of r)

unfoldable pub resolve_assignment_at :
    Tables → String → Time → Result StoreError (Option AssignmentRecord)
unfolding resolve
resolve_assignment_at s id observed_at =
    if not (supported_unix_nanoseconds observed_at)
    then err StoreError.invalid_command
    else ok (found_record (resolve id (unix_nano observed_at) s.assignments))

-- Its missing row is ErrAssignmentNotFound.
unfoldable pub get_assignment : Tables → String → ℕ → Result StoreError AssignmentRecord
get_assignment s id generation =
    if is_blank id || generation == 0 || ltb max_int64 generation
    then err StoreError.invalid_command
    else elim (first (has_key id generation) s.assignments) [
      | none ↦ err StoreError.assignment_not_found
      | some r ↦ ok (record_of r)
    ]
