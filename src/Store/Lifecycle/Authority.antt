-- ===== src/Store/Lifecycle/Authority.antt =====
-- The authority of an assignment over any sequence of commands: `PrepareAssignment`,
-- `transitionCandidate` and `CutoverAssignment` of internal/store/postgres/store.go.
use aero_arc_conformance.Prelude.{
  ℕ, ◌<◌, ◌≡◌, refl, sym, ap, ◌∙◌, inl, inr, true, false, not, ◌&&◌, ◌||◌, ◌==◌, ◌!=◌, nat_eq,
  string_eq, ltb, leb, Option, none, some, List, String, Bool-cases, Option-cases, arith, and_split,
  ==→eq, ltb→lt, ok, ◌>>◌, fail_if, >>=-eq-ok, fail_if-ok, err-not_ok,
}
use mathlib.Core.Path.{subst}
use aero_arc_conformance.Domain.Time.{
  unix_nano-lt, Time, UnixNano, unix_nano, supported_unix_nanoseconds, before, after, is_zero,
}
use aero_arc_conformance.Domain.Assignment.{AssignmentRecord}
use aero_arc_conformance.Store.Rows.{SummaryRow}
use aero_arc_conformance.Store.Tables.{
  Row, Tables, Codec, StoreError, InboxRow, has_id, has_key, is_current, is_armed, first,
  find_inbox, read_assignment_record, record_of,
}
use aero_arc_conformance.Store.Lifecycle.Commands.{
  Message, LifecycleResult, command_id, is_invalid_message, encode_command, read_command_record,
  record_lifecycle_command, replay_command, finish,
}
use aero_arc_conformance.Store.Lifecycle.Cutover.{
  current_of, activated, superseded_current, check_current, check_interval, activate, closable,
  closed, cut_over, cut_over_tables, cut_over_found, cutover_known, cutover_message,
  cutover_assignment,
}
use aero_arc_conformance.Store.Lifecycle.History.{
  is_history, update_other-is_history, close-is_history, no_current-is_history, first-close,
  open-is_history, first-window,
}

-- Every assignment has a history.
abbrev pub IsConsistent : Tables → Type 0
IsConsistent s = (id : String) → is_history id none true s.assignments ≡ true

-- A command read back: its tables are those that it left.
pub finish-tables :
    (codec : Codec) (s : Tables) (m : Message) (r : LifecycleResult) (t : Tables)
    → finish codec s m ≡ ok (r, t)
    → t ≡ s
finish-tables codec s m r t h =
    let (found, _, k) = >>=-eq-ok (read_command_record codec s m) _ h in cc

pub replay-tables :
    (codec : Codec) (s : Tables) (m : Message) (i : InboxRow) (hash : String) (r : LifecycleResult)
    (t : Tables)
    → replay_command codec s m i hash ≡ ok (r, t)
    → t ≡ s
unfolding replay_command
replay-tables codec s m i hash r t h =
    let (_, _, k) =
      >>=-eq-ok
        (fail_if (i.payload_sha256 != hash) StoreError.message_conflict
          >> read_command_record codec s m)
        _ h in
    cc

-- A record that was read comes from a row.
read-row :
    (s : Tables) (id : String) (generation : ℕ) (r : AssignmentRecord)
    → read_assignment_record s id generation ≡ ok r
    → (c : Row) × (first (has_key id generation) s.assignments ≡ some c) × (record_of c ≡ r)
unfolding read_assignment_record
read-row s id generation r h = elim (Option-cases (first (has_key id generation) s.assignments)) [
  | inl missing ↦ cc (rw missing at h)
  | inr (c, found) ↦ (c, found, cc (rw found at h))
]

-- What a closable current generation says of the boundary.
check_current-lt :
    (boundary generation : ℕ) (c : Row) (from until : UnixNano) (w : Option SummaryRow)
    (u : Unit {0})
    → check_current boundary generation c from until w ≡ ok u
    → from < boundary
unfolding check_current
check_current-lt boundary generation c from until w u h =
    let (_, first_ok, _) =
      >>=-eq-ok
        (fail_if (leb generation c.assignment.generation || leb boundary from || ltb until boundary)
          StoreError.stale_assignment)
        _ h in
    let passed = fail_if-ok _ _ _ first_ok in ground arith

pub other_row :
    (own id : String) (r : Row) → (own == id) ≡ false → has_id own r ≡ true → has_id id r ≡ false
other_row own id r differs h =
    subst (λ v. (v == id) ≡ false) (sym (==→eq r.assignment.id own h)) differs

module _ (codec : Codec) (now : Time) (effective_at : Time) (s : Tables) (m : Message) where
  abbrev boundary : UnixNano
  boundary = unix_nano effective_at

  check_interval-lt :
      (c : Row) (from until : Option UnixNano) (u : Unit {0})
      → check_interval codec now effective_at s m c from until ≡ ok u
      → (f : UnixNano) × (from ≡ some f) × (f < boundary)
  unfolding check_interval
  check_interval-lt c (some from) (some until) u h =
      (from, refl, check_current-lt _ _ c from until _ u h)
  check_interval-lt c (some from) none u h = absurd (err-not_ok _ u h)
  check_interval-lt c none until u h = absurd (err-not_ok _ u h)

  closed-is_history :
      (u : Unit {0}) (current : Option Row)
      → is_history (command_id m) none true s.assignments ≡ true
      → first (current_of (command_id m)) s.assignments ≡ current
      → closable codec now effective_at s m current ≡ ok u
      → is_history
          (command_id m)
          (some boundary)
          true
          (closed codec now effective_at s m current s.assignments)
        ≡ true
  unfolding closable
  closed-is_history u none h k checked =
      no_current-is_history (command_id m) true boundary s.assignments h k
  closed-is_history u (some c) h k checked =
      let (from, has_from, early) =
        check_interval-lt c c.authority_from c.authority_until u checked in
      close-is_history codec now effective_at (command_id m) true s.assignments c from h k has_from
        early

  closed-first :
      (current : Option Row) (c : Row)
      → first (has_key (command_id m) m.command.generation) s.assignments ≡ some c
      → is_armed c.lifecycle ≡ true
      → first
          (has_key (command_id m) m.command.generation)
          (closed codec now effective_at s m current s.assignments)
        ≡ some c
  closed-first none c k armed = k
  closed-first (some q) c k armed =
      first-close codec now effective_at (command_id m) m.command.generation q.assignment.generation
        s.assignments c k armed

  abbrev moved : Option Row → Time → List Row
  moved current until =
      activate codec now effective_at s m until
        (closed codec now effective_at s m current s.assignments)

  cut_over_tables-assignments :
      (encoded : String × String) (candidate : AssignmentRecord) (current : Option Row)
      → (cut_over_tables codec now effective_at s m encoded candidate current).assignments
        ≡ moved current candidate.assignment.effective_until
  unfolding cut_over_tables record_lifecycle_command
  cut_over_tables-assignments encoded candidate none = refl
  cut_over_tables-assignments encoded candidate (some c) =
      elim (Bool-cases (c.assignment.generation == 0)) [
        | inl zero ↦ rw zero refl
        | inr not_zero ↦ rw not_zero refl
      ]

  cut_over-assignments :
      (encoded : String × String) (candidate : AssignmentRecord) (current : Option Row)
      (r : LifecycleResult) (t : Tables)
      → cut_over codec now effective_at s m encoded candidate current ≡ ok (r, t)
      → ((u : Unit {0}) × (closable codec now effective_at s m current ≡ ok u))
        × (t.assignments ≡ moved current candidate.assignment.effective_until)
  unfolding cut_over
  cut_over-assignments encoded candidate current r t h =
      let after : Tables = cut_over_tables codec now effective_at s m encoded candidate current in
      let (u, passed, k) =
        >>=-eq-ok (closable codec now effective_at s m current) (λ _. finish codec after m) h in
      let same = ap (λ x. x.assignments) (finish-tables codec after m r t k) in
      ((u, passed), same ∙ cut_over_tables-assignments encoded candidate current)

  -- How a command came to a cutover.
  pub record CutOver (t : Tables) : Type 0 where
    pub candidate : Row
    pub current : Option Row
    pub candidate_found :
        first (has_key (command_id m) m.command.generation) s.assignments ≡ some candidate
    pub armed : is_armed candidate.lifecycle ≡ true
    pub starts : before effective_at candidate.assignment.effective_from ≡ false
    pub ends : before effective_at candidate.assignment.effective_until ≡ true
    pub current_found : first (current_of (command_id m)) s.assignments ≡ current
    pub passed : Unit {0}
    pub current_closable : closable codec now effective_at s m current ≡ ok passed
    pub result : t.assignments ≡ moved current candidate.assignment.effective_until

  cut_over_found-CutOver :
      (encoded : String × String) (candidate : AssignmentRecord) (r : LifecycleResult) (t : Tables)
      → read_assignment_record s (command_id m) m.command.generation ≡ ok candidate
      → cut_over_found codec now effective_at s m encoded candidate ≡ ok (r, t)
      → CutOver t
  unfolding cut_over_found record_of
  cut_over_found-CutOver encoded candidate r t read h =
      let (c, found, same) = read-row s (command_id m) m.command.generation candidate read in
      let (_, guards, k) =
        >>=-eq-ok
          (fail_if (not (is_armed candidate.lifecycle)) StoreError.invalid_transition
            >> fail_if
                (before effective_at candidate.assignment.effective_from
                  || not (before effective_at candidate.assignment.effective_until))
                StoreError.invalid_transition)
          _ h in
      let (_, armed, window) =
        >>=-eq-ok (fail_if (not (is_armed candidate.lifecycle)) StoreError.invalid_transition) _
          guards in
      let is_in = fail_if-ok _ _ _ window in
      let is_ready = fail_if-ok _ _ _ armed in
      let (closing, result) = cut_over-assignments encoded candidate _ r t k in
      let assignment = ap (λ x. x.assignment) same in
      let lifecycle = ap (λ x. x.lifecycle) same in
      record {
        candidate = c;
        current = first (current_of (command_id m)) s.assignments;
        candidate_found = found;
        armed = ground (arith, lifecycle);
        starts = rw assignment (ground arith);
        ends = rw assignment (ground arith);
        current_found = refl;
        passed = closing.0;
        current_closable = closing.1;
        result = rw assignment result;
      }

  -- The generations of another assignment stay as they are.
  closed-other :
      (current : Option Row) (id : String)
      → (command_id m == id) ≡ false
      → is_history id none true (closed codec now effective_at s m current s.assignments)
        ≡ is_history id none true s.assignments
  closed-other none id differs = refl
  closed-other (some c) id differs =
      update_other-is_history id
        (λ r. has_key (command_id m) c.assignment.generation r && is_current r.lifecycle)
        (superseded_current codec now effective_at) none true s.assignments
        (λ r h. other_row (command_id m) id r differs (and_split _ _ (and_split _ _ h).0).0)
        (λ r. refl)

  moved-other :
      (current : Option Row) (until : Time) (id : String)
      → (command_id m == id) ≡ false
      → is_history id none true (moved current until) ≡ is_history id none true s.assignments
  moved-other current until id differs =
      update_other-is_history id
        (λ r. has_key (command_id m) m.command.generation r && is_armed r.lifecycle)
        (activated codec now effective_at until) none true
        (closed codec now effective_at s m current s.assignments)
        (λ r h. other_row (command_id m) id r differs (and_split _ _ (and_split _ _ h).0).0)
        (λ r. refl)
      ∙ closed-other current id differs

  boundary_lt :
      (until : Time)
      → supported_unix_nanoseconds effective_at ≡ true
      → supported_unix_nanoseconds until ≡ true
      → before effective_at until ≡ true
      → boundary < unix_nano until
  boundary_lt until supported h k = ltb→lt _ _ (unix_nano-lt effective_at until supported h ∙ k)

  CutOver-IsConsistent :
      (t : Tables)
      → supported_unix_nanoseconds effective_at ≡ true
      → IsConsistent s
      → CutOver t
      → IsConsistent t
  CutOver-IsConsistent t supported h k id = elim (Bool-cases (command_id m == id)) [
    | inr differs ↦
        ap (is_history id none true) k.result ∙ moved-other k.current _ id differs ∙ h id
    | inl same ↦
        let own = ==→eq (command_id m) id same in
        let c = k.candidate in
        let window =
          first-window (command_id m) m.command.generation none true s.assignments c
            (h (command_id m)) k.candidate_found in
        let proper = boundary_lt c.assignment.effective_until supported window k.ends in
        subst (λ i. is_history i none true t.assignments ≡ true) own
          (ap (is_history (command_id m) none true) k.result
            ∙ open-is_history codec now effective_at (command_id m) m.command.generation
                c.assignment.effective_until
                (closed codec now effective_at s m k.current s.assignments) c
                (closed-is_history k.passed k.current (h (command_id m)) k.current_found
                  k.current_closable)
                (closed-first k.current c k.candidate_found k.armed) k.armed proper)
  ]

  known-IsConsistent :
      (encoded : String × String) (i : Option InboxRow) (r : LifecycleResult) (t : Tables)
      → cutover_known codec now effective_at s m encoded i ≡ ok (r, t)
      → supported_unix_nanoseconds effective_at ≡ true
      → IsConsistent s
      → IsConsistent t
  unfolding cutover_known
  known-IsConsistent encoded (some i) r t h supported k =
      subst IsConsistent (sym (replay-tables codec s m i encoded.1 r t h)) k
  known-IsConsistent encoded none r t h supported k =
      let (candidate, found, rest) =
        >>=-eq-ok
          (fail_if (after effective_at now) StoreError.invalid_transition
            >> read_command_record codec s m)
          (λ c. cut_over_found codec now effective_at s m encoded c) h in
      let (_, _, read) =
        >>=-eq-ok (fail_if (after effective_at now) StoreError.invalid_transition)
          (λ _. read_command_record codec s m) found in
      CutOver-IsConsistent t supported k (cut_over_found-CutOver encoded candidate r t read rest)

-- A cutover that is accepted leaves every assignment with a history.
pub cutover_assignment-IsConsistent :
    (codec : Codec) (now : Time) (s t : Tables) (source message_id id : String) (generation : ℕ)
    (effective_at : Time) (r : LifecycleResult)
    → cutover_assignment codec now s source message_id id generation effective_at ≡ ok (r, t)
    → IsConsistent s
    → IsConsistent t
unfolding cutover_assignment cutover_known
cutover_assignment-IsConsistent codec now s t source message_id id generation effective_at r h k =
    let m : Message = cutover_message source message_id id generation effective_at in
    let (encoded, encoding, known) =
      >>=-eq-ok
        (fail_if (is_invalid_message m || is_zero effective_at) StoreError.invalid_command
          >> fail_if (not (supported_unix_nanoseconds effective_at)) StoreError.invalid_command
          >> encode_command codec m)
        (λ encoded.
          cutover_known codec now effective_at s m encoded (find_inbox s source message_id))
        h in
    let (_, guards, _) =
      >>=-eq-ok
        (fail_if (is_invalid_message m || is_zero effective_at) StoreError.invalid_command
          >> fail_if (not (supported_unix_nanoseconds effective_at)) StoreError.invalid_command)
        (λ _. encode_command codec m) encoding in
    let (_, _, range) =
      >>=-eq-ok (fail_if (is_invalid_message m || is_zero effective_at) StoreError.invalid_command)
        _ guards in
    let supported = fail_if-ok _ _ _ range in
    known-IsConsistent codec now effective_at s m encoded (find_inbox s source message_id) r t known
      (ground (arith, supported)) k
