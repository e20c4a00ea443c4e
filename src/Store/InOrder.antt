-- ===== src/Store/InOrder.antt =====
-- Every sequence of outbox operations: `ClaimOutbox`, `MarkOutboxDelivered`, `RetryOutbox` and the
-- enqueueing of `writeEvaluation` in internal/store/postgres/store.go.
use mathlib.Core.Bool.{true≢false}
use mathlib.Core.Path.{subst}
use aero_arc_conformance.Prelude.{
  ◌<◌, ◌⊎◌, ℕ, ℤ, pos, suc, ◌≡◌, ◌≢◌, refl, sym, ap, ◌∙◌, inl, inr, Bool, true, false, not, ◌&&◌,
  ◌||◌, ◌==◌, nat_eq, string_eq, ltb_ℤ, leb_ℤ, pos_part, Option, none, some, List, [], ◌∷◌, String,
  is_blank, Result, ok, fail_if, eq_self, keep_if, any_of, All, arith, Bool-cases, >>=-elim,
  ok_injective, err-not_ok, and_split, ==→eq,
}
use aero_arc_conformance.Domain.Time.{Time, Duration}
use aero_arc_conformance.Domain.Incident.{Evaluation}
use aero_arc_conformance.Store.Rows.{Delivery, undelivered}
use aero_arc_conformance.Store.Tables.{Tables, Codec, StoreError, OutboxRow, Payload}
use aero_arc_conformance.Store.Leases.{count_where}
use aero_arc_conformance.Store.Write.{same_message}
use aero_arc_conformance.Store.Outbox.{
  OutboxClaim, is_ahead, is_due_message, due_messages, same_id, claim_outbox, owns_message,
  update_message, mark_outbox_delivered, retry_outbox,
}
use aero_arc_conformance.Domain.Types.{RecordingStatus}
use aero_arc_conformance.Domain.Assignment.{Assignment}
use aero_arc_conformance.Store.Tables.{evaluated}
use aero_arc_conformance.Store.Commit.{EvaluationCommit}
use aero_arc_conformance.Store.Evaluations.{commit_evaluation}
use aero_arc_conformance.Store.Recorded.{message_id, commit_evaluation-Recorded}
use aero_arc_conformance.Worker.Claim.{Claim}
use aero_arc_conformance.Store.Sequence.{
  ComesBefore, InSequence, is_ahead-ComesBefore, IsInOrder-InSequence, InSequence-IsInOrder,
}
use aero_arc_conformance.Store.Delivery.{
  for_registry, is_taken, InTurn, Identified, IsInOrder, All-mono, All-both, KeepsDelivered, Takes,
  IsInOrder-updated, any_of-All, any_of-limited, any_of-sort_by, any_of-keep_if,
}

due-in_turn :
    (destination : String) (now : Time) (locked : OutboxRow → Bool) (rows : List OutboxRow)
    (o : OutboxRow)
    → is_due_message destination now locked rows o ≡ true
    → for_registry o ≡ true
    → any_of (is_ahead o) rows ≡ false
unfolding is_due_message
due-in_turn destination now locked rows o h k = ground arith

-- A claimed row is due itself, as its identity is unique.
claimed-due :
    (destination : String) (now : Time) (locked : OutboxRow → Bool) (limit : ℕ)
    (rows : List OutboxRow) (o : OutboxRow)
    → All (Identified o) rows
    → any_of (same_id o) (due_messages destination now locked limit rows) ≡ true
    → is_due_message destination now locked rows o ≡ true
unfolding due_messages
claimed-due destination now locked limit rows o unique h =
    let due = is_due_message destination now locked rows in
    let sorted = any_of-limited (same_id o) limit _ h in
    let kept = sym (any_of-sort_by (same_id o) _ (keep_if due rows)) ∙ sorted in
    let found : any_of (λ d. due d && same_id o d) rows ≡ true =
      sym (any_of-keep_if (same_id o) due rows) ∙ kept in
    let (d, both, identified) =
      any_of-All (Identified o) (λ d. due d && same_id o d) rows found unique in
    let (is_due, same) = and_split _ _ both in
    subst (λ x. due x ≡ true) (sym (identified same)) is_due

module _ (codec : Codec) (now : Time) (decode_other : Payload → Result StoreError Evaluation) where
  claim-IsInOrder :
      (locked : OutboxRow → Bool) (s : Tables) (destination worker_id : String) (lease : Duration)
      (limit : ℤ)
      → IsInOrder s.outbox
      → IsInOrder
          (claim_outbox codec now decode_other locked s destination worker_id lease limit).0.outbox
  unfolding claim_outbox
  claim-IsInOrder locked s destination worker_id lease limit h =
      elim (Bool-cases (
        is_blank destination || is_blank worker_id || leb_ℤ lease (pos 0) || ltb_ℤ limit (pos 1))) [
          | inl refused ↦ rw refused h
          | inr claims ↦ rw claims (
              let due = due_messages destination now locked (pos_part limit) s.outbox in
              let claimed : OutboxRow → Bool = λ o. any_of (same_id o) due in
              let g : Delivery → Delivery = λ d. record d {
                lease_owner = some worker_id;
                lease_generation = suc d.lease_generation;
                lease_until = some (codec.plus_interval now lease);
                attempt_count = suc d.attempt_count;
              } in
              IsInOrder-updated claimed g (λ o k. k) s.outbox h
                (All-mono (λ o. All (Identified o) s.outbox) (Takes claimed g (λ o k. k) s.outbox)
                  (λ o unique registry taken.
                    due-in_turn destination now locked s.outbox o
                      (claimed-due destination now locked (pos_part limit) s.outbox o unique taken)
                      registry)
                  s.outbox h.unique))
        ]

owned-is_taken :
    (c : OutboxClaim) (now : Time) (o : OutboxRow) → owns_message c now o ≡ true → is_taken o ≡ true
unfolding owns_message
owned-is_taken c now o h = ground arith

update_message-IsInOrder :
    (c : OutboxClaim) (now : Time) (g : Delivery → Delivery) (keeps : KeepsDelivered g)
    (s t : Tables)
    → update_message c now g s ≡ ok t
    → IsInOrder s.outbox
    → IsInOrder t.outbox
unfolding update_message
update_message-IsInOrder c now g keeps s t h in_order =
    >>=-elim
      (fail_if (not (count_where (owns_message c now) s.outbox == 1)) StoreError.outbox_lease_lost)
      _
      (λ _ _ last.
        subst (λ (x : Tables). IsInOrder x.outbox) (ok_injective refl last)
          (IsInOrder-updated (owns_message c now) g keeps s.outbox in_order (
            All-mono (InTurn s.outbox) (Takes (owns_message c now) g keeps s.outbox)
              (λ o turn registry owned. turn registry (owned-is_taken c now o owned)) s.outbox
              in_order.in_turn)))
      h

mark-IsInOrder :
    (now : Time) (s t : Tables) (c : OutboxClaim)
    → mark_outbox_delivered now s c ≡ ok t
    → IsInOrder s.outbox
    → IsInOrder t.outbox
unfolding mark_outbox_delivered
mark-IsInOrder now s t c =
    update_message-IsInOrder c now
      (λ d. record d {
        delivered_at = some now;
        lease_owner = none;
        lease_until = none;
        last_error = none;
      })
      (λ o k. refl) s t

retry-IsInOrder :
    (codec : Codec) (truncate : String → String) (now : Time) (s t : Tables) (c : OutboxClaim)
    (delay : Duration) (cause : Option String)
    → retry_outbox codec truncate now s c delay cause ≡ ok t
    → IsInOrder s.outbox
    → IsInOrder t.outbox
unfolding retry_outbox
retry-IsInOrder codec truncate now s t c delay none h in_order = absurd (err-not_ok _ t h)
retry-IsInOrder codec truncate now s t c delay (some text) h in_order =
    >>=-elim (fail_if (leb_ℤ delay (pos 0)) StoreError.invalid_arguments) _
      (λ _ _ rest.
        update_message-IsInOrder c now
          (λ d. record d {
            next_attempt_at = codec.plus_interval now delay;
            lease_owner = none;
            lease_until = none;
            last_error = some (truncate text);
          })
          (λ o k. k) s t rest in_order)
      h

-- No registry message of the assignment comes after the new one.
abbrev pub Follows : OutboxRow → OutboxRow → Type 0
Follows new o =
    o.destination ≡ "registry" → o.assignment_id ≡ new.assignment_id → ¬ (ComesBefore new o)

Follows-ahead : (new o : OutboxRow) → Follows new o → for_registry o ≡ true → is_ahead o new ≡ false
Follows-ahead new o follows registry = elim (Bool-cases (is_ahead o new)) [
  | inr behind ↦ behind
  | inl ahead ↦
      let (_, assignment, _, before) = is_ahead-ComesBefore o new ahead in
      absurd (follows (==→eq o.destination "registry" registry) (sym assignment) before)
]

abbrev Distinct : OutboxRow → OutboxRow → Type 0
Distinct new o = new.outbox_id ≢ o.outbox_id

ids_differ :
    (new : OutboxRow) (os : List OutboxRow)
    → any_of (same_message new) os ≡ false
    → All (Distinct new) os
ids_differ new [] h = tt
ids_differ new (o ∷ os) h = elim (Bool-cases (same_message new o)) [
  | inl same ↦ absurd (true≢false (rw same at h))
  | inr differs ↦ (other_id new o differs, ids_differ new os (rw differs at h))
]
  where
    other_id : (new o : OutboxRow) → same_message new o ≡ false → Distinct new o
    other_id new o h same = ground (arith, eq_self o.outbox_id, same)

unidentified : (new o : OutboxRow) → Distinct new o → Identified new o
unidentified new o k same = absurd (k (sym (==→eq o.outbox_id new.outbox_id same)))

enqueue-IsInOrder :
    (now : Time) (new : OutboxRow) (rows : List OutboxRow)
    → new.delivery ≡ undelivered now
    → any_of (same_message new) rows ≡ false
    → All (Follows new) rows
    → IsInOrder rows
    → IsInOrder (new ∷ rows)
enqueue-IsInOrder now new rows fresh unknown follows h =
    let apart = ids_differ new rows unknown in
    record {
      in_turn = (
        λ registry taken. absurd (
            true≢false
              (sym taken ∙ ap (λ (d : Delivery). is_taken (record new { delivery = d })) fresh)),
        All-both (Follows new) (InTurn rows) (InTurn (new ∷ rows))
            (λ o f turn registry taken. rw (Follows-ahead new o f registry) (turn registry taken))
            rows follows h.in_turn,
      );
      unique = (
        (
          λ same. refl,
          All-mono (Distinct new) (Identified new) (λ o. unidentified new o) rows apart,
        ),
        All-both (Distinct new) (λ o. All (Identified o) rows)
            (λ o. All (Identified o) (new ∷ rows))
            (λ o k ids. (λ same. absurd (k (==→eq new.outbox_id o.outbox_id same)), ids)) rows apart
            h.unique,
      );
    }

-- No registry message of the assignment has a later generation and revision.
abbrev pub IsLatest : Assignment → ℕ → OutboxRow → Type 0
IsLatest a revision o =
    o.destination ≡ "registry"
    → o.assignment_id ≡ a.id
    → ¬ (
        (a.generation < o.generation)
        ⊎ ((a.generation ≡ o.generation) × (revision < o.evaluation_revision)))

commit-IsInOrder :
    (codec : Codec) (now : Time) (s t : Tables) (c : Claim) (commit : EvaluationCommit)
    → commit_evaluation codec now s c commit ≡ ok t
    → All (IsLatest c.assignment (suc c.evaluation_revision)) s.outbox
    → IsInOrder s.outbox
    → IsInOrder t.outbox
commit-IsInOrder codec now s t c commit e latest h =
    elim ((commit_evaluation-Recorded codec now s t c commit e).queued) [
      | inr (same, known) ↦ subst IsInOrder (sym same) h
      | inl (grown, fresh) ↦ subst IsInOrder (sym grown) (
          enqueue-IsInOrder now
            (record {
              outbox_id = message_id codec c.assignment (suc c.evaluation_revision);
              destination = "registry";
              idempotency_key = message_id codec c.assignment (suc c.evaluation_revision);
              assignment_id = c.assignment.id;
              generation = c.assignment.generation;
              evaluation_revision = suc c.evaluation_revision;
              payload =
                  evaluated (record commit.evaluation { recording = RecordingStatus.confirmed });
              delivery = undelivered now;
            })
            s.outbox refl fresh latest h)
    ]

-- What happens to the outbox, each at its own database time. A live commit enqueues the message of its
-- revision, where no registry message of its assignment is later; other commands and statements of
-- workers leave the outbox.
pub data OutboxStep (codec : Codec) (s : Tables) : Tables → Type 0 where
  commits_evaluation :
      {t : Tables} (now : Time) (c : Claim) (commit : EvaluationCommit)
      → commit_evaluation codec now s c commit ≡ ok t
      → All (IsLatest c.assignment (suc c.evaluation_revision)) s.outbox
      → OutboxStep codec s t
  leaves_outbox : {t : Tables} → t.outbox ≡ s.outbox → OutboxStep codec s t
  claims_messages :
      (now : Time) (decode_other : Payload → Result StoreError Evaluation)
      (locked : OutboxRow → Bool) (destination worker_id : String) (lease : Duration) (limit : ℤ)
      → OutboxStep codec s
          (claim_outbox codec now decode_other locked s destination worker_id lease limit).0
  marks_delivered :
      {t : Tables} (now : Time) (c : OutboxClaim)
      → mark_outbox_delivered now s c ≡ ok t
      → OutboxStep codec s t
  schedules_retry :
      {t : Tables} (truncate : String → String) (now : Time) (c : OutboxClaim) (delay : Duration)
      (cause : Option String)
      → retry_outbox codec truncate now s c delay cause ≡ ok t
      → OutboxStep codec s t

pub data OutboxSteps (codec : Codec) (s : Tables) : Tables → Type 0 where
  untouched : OutboxSteps codec s s
  followed_by :
      {t u : Tables} → OutboxSteps codec s t → OutboxStep codec t u → OutboxSteps codec s u

OutboxStep-IsInOrder :
    (codec : Codec) (s t : Tables) → OutboxStep codec s t → IsInOrder s.outbox → IsInOrder t.outbox
OutboxStep-IsInOrder codec s t (leaves_outbox same) h = subst IsInOrder (sym same) h
OutboxStep-IsInOrder codec s t (commits_evaluation now c commit e latest) h =
    commit-IsInOrder codec now s t c commit e latest h
OutboxStep-IsInOrder codec s _
      (claims_messages now decode_other locked destination worker_id lease limit) h =
    claim-IsInOrder codec now decode_other locked s destination worker_id lease limit h
OutboxStep-IsInOrder codec s t (marks_delivered now c e) h = mark-IsInOrder now s t c e h
OutboxStep-IsInOrder codec s t (schedules_retry truncate now c delay cause e) h =
    retry-IsInOrder codec truncate now s t c delay cause e h

OutboxSteps-IsInOrder :
    (codec : Codec) (s t : Tables) → OutboxSteps codec s t → IsInOrder s.outbox → IsInOrder t.outbox
OutboxSteps-IsInOrder codec s _ untouched h = h
OutboxSteps-IsInOrder codec s u (followed_by {t = t} path step) h =
    OutboxStep-IsInOrder codec t u step (OutboxSteps-IsInOrder codec s t path h)

-- The registry receives the messages of an assignment in the order of generation and revision: by
-- whatever steps of whatever publishers messages are claimed, delivered and retried, and live commits
-- enqueue the messages of revisions that no registry message of their assignment is later than, an
-- outbox that is in sequence stays in sequence. In sequence means that where a registry message is
-- delivered or leased, every registry message of its assignment with an earlier generation, or with the
-- same generation and an earlier revision, has a time of delivery, and that the messages' identities
-- are unique.
pub OutboxSteps-InSequence :
    (codec : Codec) (s t : Tables)
    → OutboxSteps codec s t
    → InSequence s.outbox
    → InSequence t.outbox
OutboxSteps-InSequence codec s t path h =
    IsInOrder-InSequence t.outbox
      (OutboxSteps-IsInOrder codec s t path (InSequence-IsInOrder s.outbox h))
