-- ===== src/Store/Lifecycle/Reachable.antt =====
-- Every sequence of assignment commands: `PrepareAssignment`, `ArmAssignment`, `CancelCandidate` and
-- `CutoverAssignment` of internal/store/postgres/store.go.
use mathlib.Core.Path.{subst}
use aero_arc_conformance.Prelude.{
  ℕ, ◌≡◌, refl, sym, ap, ◌∙◌, inl, inr, true, false, not, ◌&&◌, ◌==◌, ◌!=◌, nat_eq, string_eq, ltb,
  Option, none, some, String, Bool-cases, arith, and_split, ==→eq, eq_self, ok, ◌>>◌, fail_if,
  >>=-eq-ok, fail_if-ok, err-not_ok,
}
use aero_arc_conformance.Domain.Time.{Time}
use aero_arc_conformance.Domain.Assignment.{AssignmentRecord}
use aero_arc_conformance.Store.Tables.{
  Row, Tables, Codec, StoreError, InboxRow, has_key, latest, find_inbox,
}
use aero_arc_conformance.Store.Lifecycle.Prepare.{
  ApplyResult, Envelope, answer, candidate_row, candidate_of, superseded_candidate,
  stored_disposition, envelope_hash, prepare_assignment, prepare_known, apply_candidate,
  insert_candidate, is_invalid_envelope, changes_identity,
}
use aero_arc_conformance.Store.Lifecycle.Commands.{
  Target, Message, LifecycleResult, command_id, is_invalid_message, encode_command,
  read_command_record, record_lifecycle_command, finish, transition_candidate, candidate_message,
  set_target, is_latest, reaches, with_target, target_state, transition_known, transition_found,
}
use aero_arc_conformance.Store.Lifecycle.Cutover.{cutover_assignment}
use aero_arc_conformance.Store.Lifecycle.History.{
  is_history, supersede-is_history, target-is_history, target_row, update_other-is_history,
}
use aero_arc_conformance.Store.Lifecycle.Authority.{
  IsConsistent, finish-tables, replay-tables, other_row, cutover_assignment-IsConsistent,
}

module _ (codec : Codec) (now : Time) (s : Tables) (target : Target) (m : Message) where
  set_target-IsConsistent : IsConsistent s → IsConsistent (set_target codec now s target m)
  set_target-IsConsistent h id = elim (Bool-cases (command_id m == id)) [
    | inl same ↦
        let own = ==→eq (command_id m) id same in
        subst (λ i. is_history i none true (set_target codec now s target m).assignments ≡ true) own
          (target-is_history (command_id m) now target m.command.generation none true s.assignments
            (h (command_id m)))
    | inr differs ↦
        update_other-is_history id
          (λ r. has_key (command_id m) m.command.generation r && reaches target r.lifecycle)
          (with_target now target) none true s.assignments
          (λ r k. other_row (command_id m) id r differs (and_split _ _ (and_split _ _ k).0).0)
          (λ r. (target_row id now target r).0)
        ∙ h id
  ]

  recorded-assignments :
      (t : Tables) (encoded : String × String) (r : AssignmentRecord)
      → (record_lifecycle_command codec t m now r.lifecycle
          (target_state target)
          encoded).assignments
        ≡ t.assignments
  unfolding record_lifecycle_command
  recorded-assignments t encoded r = refl

  transition_found-IsConsistent :
      (encoded : String × String) (c : AssignmentRecord) (r : LifecycleResult) (t : Tables)
      → transition_found codec now s target m encoded c ≡ ok (r, t)
      → IsConsistent s
      → IsConsistent t
  unfolding transition_found
  transition_found-IsConsistent encoded c r t h k =
      let after : Tables =
        record_lifecycle_command codec (set_target codec now s target m) m now c.lifecycle
          (target_state target) encoded in
      let (_, _, rest) =
        >>=-eq-ok
          (fail_if (not (is_latest s m)) StoreError.stale_assignment
            >> fail_if (not (reaches target c.lifecycle)) StoreError.invalid_transition)
          (λ _. finish codec after m) h in
      let same =
        ap (λ x. x.assignments) (finish-tables codec after m r t rest)
        ∙ recorded-assignments (set_target codec now s target m) encoded c in
      λ id. ap (is_history id none true) same ∙ set_target-IsConsistent k id

  transition_known-IsConsistent :
      (encoded : String × String) (i : Option InboxRow) (r : LifecycleResult) (t : Tables)
      → transition_known codec now s target m encoded i ≡ ok (r, t)
      → IsConsistent s
      → IsConsistent t
  unfolding transition_known
  transition_known-IsConsistent encoded (some i) r t h k =
      subst IsConsistent (sym (replay-tables codec s m i encoded.1 r t h)) k
  transition_known-IsConsistent encoded none r t h k =
      let (c, _, rest) =
        >>=-eq-ok (read_command_record codec s m) (transition_found codec now s target m encoded)
          h in
      transition_found-IsConsistent encoded c r t rest k

transition_candidate-IsConsistent :
    (codec : Codec) (now : Time) (s t : Tables) (target : Target) (source message_id id : String)
    (generation : ℕ) (r : LifecycleResult)
    → transition_candidate codec now s target source message_id id generation ≡ ok (r, t)
    → IsConsistent s
    → IsConsistent t
unfolding transition_candidate
transition_candidate-IsConsistent codec now s t target source message_id id generation r h k =
    let m : Message = candidate_message target source message_id id generation in
    let (encoded, _, known) =
      >>=-eq-ok
        (fail_if (is_invalid_message m) StoreError.invalid_command >> encode_command codec m)
        (λ encoded. transition_known codec now s target m encoded (find_inbox s source message_id))
        h in
    transition_known-IsConsistent codec now s target m encoded (find_inbox s source message_id) r t
      known k

module _ (codec : Codec) (now : Time) (s : Tables) (e : Envelope) (hash : String) where
  insert_own :
      is_invalid_envelope e ≡ false
      → IsConsistent s
      → is_history e.assignment.id none true (insert_candidate codec now s e hash).assignments
        ≡ true
  unfolding insert_candidate candidate_row is_history is_invalid_envelope
  insert_own valid h =
      let rest = supersede-is_history e.assignment.id none true s.assignments (h e.assignment.id) in
      ground (arith, rest, eq_self e.assignment.id)

  insert_other :
      (id : String)
      → (e.assignment.id == id) ≡ false
      → IsConsistent s
      → is_history id none true (insert_candidate codec now s e hash).assignments ≡ true
  unfolding insert_candidate candidate_row is_history
  insert_other id differs h =
      let rest =
        update_other-is_history id (candidate_of e.assignment.id) superseded_candidate none true
          s.assignments (λ r k. other_row e.assignment.id id r differs (and_split _ _ k).0)
          (λ r. refl) in
      rw differs (rest ∙ h id)

  insert_candidate-IsConsistent :
      is_invalid_envelope e ≡ false
      → IsConsistent s
      → IsConsistent (insert_candidate codec now s e hash)
  insert_candidate-IsConsistent valid h id = elim (Bool-cases (e.assignment.id == id)) [
    | inl same ↦
        subst (λ i. is_history i none true (insert_candidate codec now s e hash).assignments ≡ true)
          (==→eq e.assignment.id id same) (insert_own valid h)
    | inr differs ↦ insert_other id differs h
  ]

  same_assignments : (t : Tables) → t.assignments ≡ s.assignments → IsConsistent s → IsConsistent t
  same_assignments t same h id = ap (is_history id none true) same ∙ h id

  inserted :
      (t : Tables)
      → insert_candidate codec now s e hash ≡ t
      → is_invalid_envelope e ≡ false
      → IsConsistent s
      → IsConsistent t
  inserted t same valid k = subst IsConsistent same (insert_candidate-IsConsistent valid k)

  apply_candidate-IsConsistent :
      (current : Option Row) (r : ApplyResult) (t : Tables)
      → apply_candidate codec now s e hash current ≡ ok (r, t)
      → is_invalid_envelope e ≡ false
      → IsConsistent s
      → IsConsistent t
  unfolding apply_candidate
  apply_candidate-IsConsistent none r t h valid k = inserted t (cc) valid k
  apply_candidate-IsConsistent (some current) r t h valid k =
      elim (Bool-cases (ltb e.assignment.generation current.assignment.generation)) [
        | inl older ↦ same_assignments t (cc (rw older at h)) k
        | inr not_older ↦
            elim (Bool-cases (e.assignment.generation == current.assignment.generation)) [
              | inl repeated ↦ elim (Bool-cases (codec.same_json current.assignment e.assignment)) [
                | inl equal ↦
                    same_assignments t (cc (rw equal at (rw repeated at (rw not_older at h)))) k
                | inr unequal ↦
                    absurd (err-not_ok _ _ (rw unequal at (rw repeated at (rw not_older at h))))
              ]
              | inr newer ↦ elim (Bool-cases (changes_identity e.assignment current)) [
                | inl changed ↦
                    absurd (err-not_ok _ _ (rw changed at (rw newer at (rw not_older at h))))
                | inr stable ↦
                    inserted t (cc (rw stable at (rw newer at (rw not_older at h)))) valid k
              ]
            ]
      ]

  prepare_known-IsConsistent :
      (i : Option InboxRow) (r : ApplyResult) (t : Tables)
      → prepare_known codec now s e hash i ≡ ok (r, t)
      → is_invalid_envelope e ≡ false
      → IsConsistent s
      → IsConsistent t
  unfolding prepare_known
  prepare_known-IsConsistent (some i) r t h valid k =
      let (d, _, rest) =
        >>=-eq-ok
          (fail_if (i.payload_sha256 != hash) StoreError.message_conflict
            >> stored_disposition i.disposition)
          (λ d. ok (answer codec now s e hash d s)) h in
      same_assignments t (cc) k
  prepare_known-IsConsistent none r t h valid k =
      apply_candidate-IsConsistent (latest e.assignment.id s.assignments) r t h valid k

prepare_assignment-IsConsistent :
    (codec : Codec) (now : Time) (s t : Tables) (e : Envelope) (r : ApplyResult)
    → prepare_assignment codec now s e ≡ ok (r, t)
    → IsConsistent s
    → IsConsistent t
unfolding prepare_assignment
prepare_assignment-IsConsistent codec now s t e r h k =
    let (hash, first_ok, known) =
      >>=-eq-ok
        (fail_if (is_invalid_envelope e) StoreError.invalid_command >> envelope_hash codec e)
        (λ hash. prepare_known codec now s e hash (find_inbox s e.source e.message_id)) h in
    let (_, valid, _) =
      >>=-eq-ok (fail_if (is_invalid_envelope e) StoreError.invalid_command)
        (λ _. envelope_hash codec e) first_ok in
    prepare_known-IsConsistent codec now s e hash (find_inbox s e.source e.message_id) r t known
      (fail_if-ok _ _ _ valid) k

-- An accepted command, each at its own database time.
pub data Step (codec : Codec) (s : Tables) : Tables → Type 0 where
  prepared :
      {t : Tables} (now : Time) (e : Envelope) (r : ApplyResult)
      → prepare_assignment codec now s e ≡ ok (r, t)
      → Step codec s t
  transitioned :
      {t : Tables} (now : Time) (target : Target) (source message_id id : String) (generation : ℕ)
      (r : LifecycleResult)
      → transition_candidate codec now s target source message_id id generation ≡ ok (r, t)
      → Step codec s t
  cut :
      {t : Tables} (now : Time) (source message_id id : String) (generation : ℕ)
      (effective_at : Time) (r : LifecycleResult)
      → cutover_assignment codec now s source message_id id generation effective_at ≡ ok (r, t)
      → Step codec s t

pub data Reachable (codec : Codec) (s : Tables) : Tables → Type 0 where
  start : Reachable codec s s
  after_step : {t u : Tables} → Reachable codec s t → Step codec t u → Reachable codec s u

Step-IsConsistent :
    (codec : Codec) (s t : Tables) → Step codec s t → IsConsistent s → IsConsistent t
Step-IsConsistent codec s t (prepared now e r h) k =
    prepare_assignment-IsConsistent codec now s t e r h k
Step-IsConsistent codec s t (transitioned now target source message_id id generation r h) k =
    transition_candidate-IsConsistent codec now s t target source message_id id generation r h k
Step-IsConsistent codec s t (cut now source message_id id generation effective_at r h) k =
    cutover_assignment-IsConsistent codec now s t source message_id id generation effective_at r h k

-- Whatever commands are accepted, in whatever order, tables in which every assignment has a history
-- lead to such tables: of an assignment's generations at most the newest is a candidate, at most one
-- is current and has the newest authority interval, and the authority intervals are proper and meet
-- end to end.
pub Reachable-IsConsistent :
    (codec : Codec) (s t : Tables) → Reachable codec s t → IsConsistent s → IsConsistent t
Reachable-IsConsistent codec s _ start k = k
Reachable-IsConsistent codec s u (after_step {t = t} path step) k =
    Step-IsConsistent codec t u step (Reachable-IsConsistent codec s t path k)
