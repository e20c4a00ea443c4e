-- ===== src/Store/Recorded.antt =====
-- What a live evaluation commit leaves in the tables: `CommitEvaluation` and `writeEvaluation` of
-- internal/store/postgres/store.go.
use Prim.Native.String.{◌++◌}
use mathlib.Core.Path.{subst}
use aero_arc_conformance.Prelude.{
  String, ◌⊎◌, ◌||◌, ℕ, suc, ◌≡◌, refl, sym, ap, ◌∙◌, inl, inr, Bool, true, false, ◌&&◌, ◌==◌,
  nat_eq, string_eq, Option, none, some, List, [], ◌∷◌, ok, ◌>>◌, fail_if, any_of, arith,
  Bool-cases, >>=-elim, ok_injective, >>=-eq-ok, err-not_ok, fail_if-ok, and_split, ==→eq, eq_self,
}
use aero_arc_conformance.Domain.Time.{Time}
use aero_arc_conformance.Domain.Assignment.{Assignment}
use aero_arc_conformance.Domain.Incident.{Evaluation}
use aero_arc_conformance.Domain.Time.{unix_nano}
use aero_arc_conformance.Domain.Types.{RecordingStatus}
use aero_arc_conformance.Store.Newest.{ComesAfter, Found, newest_checkpoint-Found}
use aero_arc_conformance.Store.Rows.{CheckpointRow, SummaryRow, undelivered}
use aero_arc_conformance.Store.Tables.{
  Row, Tables, Codec, StoreError, OutboxRow, evaluated, update_where, first,
}
use aero_arc_conformance.Store.Lifecycle.Cutover.{watermark_of}
use aero_arc_conformance.Store.Commit.{
  EvaluationCommit, validate_evaluation_commit, Sign, compare_evaluation_cursor,
}
use aero_arc_conformance.Store.Write.{
  write_evaluation, write_confirmed, write_transitions, check_watermark, newest_checkpoint,
  confirmed, encoded, insert_checkpoint, checkpoint_row, summary_row, upsert_summary, registry_row,
  enqueue, is_stale, same_message, is_checkpoint_of,
}
use aero_arc_conformance.Store.Evaluations.{
  commit_evaluation, commit_row, within_returned, is_committed, evaluated_row,
}
use aero_arc_conformance.Store.Monotone.{write_transitions-keeps}
use aero_arc_conformance.Worker.Claim.{Claim}

abbrev pub message_id : Codec → Assignment → ℕ → String
message_id codec a revision =
    "registry:" ++ (a.id ++ (":" ++ (codec.sprint a.generation ++ (":" ++ codec.sprint revision))))

-- A message with the identity is in the outbox.
abbrev pub is_known : Codec → Assignment → ℕ → List OutboxRow → Bool
is_known codec a revision rows =
    any_of
      (λ o.
        o.outbox_id == message_id codec a revision
        || o.idempotency_key == message_id codec a revision)
      rows

-- What an evaluation of a revision of an assignment has recorded.
pub record Recorded (codec : Codec) (now : Time) (s t : Tables) (a : Assignment) (revision : ℕ)
    (e : Evaluation) : Type 0 where
  pub checkpoint :
      t.checkpoints
      ≡ record {
        assignment_id = a.id;
        generation = a.generation;
        evaluation_revision = revision;
        state_through_at = unix_nano e.observed_at;
        wal_id = e.wal_id;
        wal_sequence = e.wal_sequence;
        frame_id = e.frame_id;
        evaluator_state = e.state;
      }
        ∷ s.checkpoints
  pub watermark :
      watermark_of t a.id a.generation
      ≡ some (record {
        assignment_id = a.id;
        generation = a.generation;
        evaluation_revision = revision;
        observed_at = unix_nano e.observed_at;
        payload = record e { recording = RecordingStatus.confirmed };
      })
  pub queued :
      ((t.outbox
          ≡ record {
            outbox_id = message_id codec a revision;
            destination = "registry";
            idempotency_key = message_id codec a revision;
            assignment_id = a.id;
            generation = a.generation;
            evaluation_revision = revision;
            payload = evaluated (record e { recording = RecordingStatus.confirmed });
            delivery = undelivered now;
          }
            ∷ s.outbox)
        × (is_known codec a revision s.outbox ≡ false))
      ⊎ ((t.outbox ≡ s.outbox) × (is_known codec a revision s.outbox ≡ true))
  pub later : ComesAfter a s.checkpoints e

module _ (codec : Codec) (now : Time) (a : Assignment) (revision : ℕ) (e : Evaluation) where
  upsert-first :
      (ws : List SummaryRow)
      → first
          (λ w. w.assignment_id == a.id && w.generation == a.generation)
          (upsert_summary codec a revision e ws)
        ≡ some (summary_row codec a revision e)
  unfolding upsert_summary summary_row
  upsert-first [] = rw (eq_self a.id) (rw (eq_self a.generation) refl)
  upsert-first (w ∷ ws) =
      elim (Bool-cases (w.assignment_id == a.id && w.generation == a.generation)) [
        | inl here ↦ rw here (rw (eq_self a.id) (rw (eq_self a.generation) refl))
        | inr elsewhere ↦ rw elsewhere (rw elsewhere (upsert-first ws))
      ]

  enqueue-queued :
      (new : OutboxRow) (os : List OutboxRow)
      → ((enqueue codec a revision e new os ≡ new ∷ os) × (any_of (same_message new) os ≡ false))
        ⊎ ((enqueue codec a revision e new os ≡ os) × (any_of (same_message new) os ≡ true))
  unfolding enqueue
  enqueue-queued new os = elim (Bool-cases (any_of (same_message new) os)) [
    | inl known ↦ inr (rw known refl, known)
    | inr fresh ↦ inl (rw fresh refl, fresh)
  ]

  abbrev Queued : List OutboxRow → List OutboxRow → Type 0
  Queued before after =
      ((after ≡ registry_row codec a revision e now ∷ before)
        × (any_of (same_message (registry_row codec a revision e now)) before ≡ false))
      ⊎ ((after ≡ before)
          × (any_of (same_message (registry_row codec a revision e now)) before ≡ true))

  insert_checkpoint-cons :
      (before after : List CheckpointRow)
      → insert_checkpoint codec a revision e before ≡ ok after
      → after ≡ checkpoint_row codec a revision e ∷ before
  unfolding insert_checkpoint
  insert_checkpoint-cons before after h =
      >>=-elim
        (fail_if
          (any_of (λ c. is_checkpoint_of a.id a.generation c && c.evaluation_revision == revision)
            before)
          StoreError.constraint_violation)
        _ (λ _ _ last. sym (ok_injective refl last)) h

  write_confirmed-Recorded :
      (s t : Tables)
      → write_confirmed codec a revision e now true s ≡ ok t
      → (t.checkpoints ≡ checkpoint_row codec a revision e ∷ s.checkpoints)
        × (watermark_of t a.id a.generation ≡ some (summary_row codec a revision e))
        × Queued s.outbox t.outbox
  unfolding write_confirmed insert_checkpoint
  write_confirmed-Recorded s t h =
      let written =
        encoded (codec.marshal_evaluation e)
        >> encoded (codec.marshal_state e.state)
        >> write_transitions codec a revision e e.transitions s in
      let (u, before, after) = >>=-eq-ok written _ h in
      let (_, _, transitions) =
        >>=-eq-ok (encoded (codec.marshal_evaluation e) >> encoded (codec.marshal_state e.state)) _
          before in
      >>=-elim (insert_checkpoint codec a revision e u.checkpoints) _
        (λ checkpoints inserted last.
          let same = ok_injective refl last in
          (
            ap (λ x. x.checkpoints) (sym same)
                ∙ insert_checkpoint-cons u.checkpoints checkpoints inserted
                ∙ ap (λ cs. checkpoint_row codec a revision e ∷ cs)
                    (write_transitions-keeps codec a revision e (λ x. x.checkpoints)
                      (λ s i ev. refl) e.transitions s u transitions),
            ap (λ x. watermark_of x a.id a.generation) (sym same) ∙ upsert-first u.summaries,
            subst (λ before. Queued before t.outbox)
                (write_transitions-keeps codec a revision e (λ x. x.outbox) (λ s i ev. refl)
                  e.transitions s u transitions)
                (subst (λ (x : Tables). Queued u.outbox x.outbox) same
                  (enqueue-queued (registry_row codec a revision e now) u.outbox)),
          ))
        after

not_stale : (sign : Sign) → is_stale false sign ≡ false → sign ≡ Sign.greater
not_stale sign h = ground arith

check_watermark-ComesAfter :
    (a : Assignment) (before : List CheckpointRow) (e : Evaluation) (found : Option CheckpointRow)
    (u : Unit {0})
    → Found a before found
    → check_watermark e false found ≡ ok u
    → ComesAfter a before e
unfolding check_watermark
check_watermark-ComesAfter a before e none u f h = inl f
check_watermark-ComesAfter a before e (some c) u f h = inr (
  c,
  f,
  not_stale (compare_evaluation_cursor e c.state_through_at c.wal_id c.wal_sequence c.frame_id)
      (fail_if-ok _ _ u h),
)

write_evaluation-Recorded :
    (codec : Codec) (now : Time) (s t : Tables) (a : Assignment) (revision : ℕ) (e : Evaluation)
    → write_evaluation codec now s a revision e false true ≡ ok t
    → Recorded codec now s t a revision e
unfolding write_evaluation checkpoint_row summary_row registry_row
write_evaluation-Recorded codec now s t a revision e h =
    >>=-elim (check_watermark e false (newest_checkpoint a.id a.generation s.checkpoints)) _
      (λ u checked rest.
        let (checkpoint, watermark, queued) =
          write_confirmed-Recorded codec now a revision (confirmed e) s t rest in
        record {
          checkpoint = checkpoint;
          watermark = watermark;
          queued = queued;
          later =
              check_watermark-ComesAfter a s.checkpoints e
                (newest_checkpoint a.id a.generation s.checkpoints) u
                (newest_checkpoint-Found a s.checkpoints) checked;
        })
      h

first-holds : {A : Type 0} (p : A → Bool) (xs : List A) (x : A) → first p xs ≡ some x → p x ≡ true
first-holds p [] x h = cc
first-holds p (y ∷ ys) x h = elim (Bool-cases (p y)) [
  | inl here ↦ let same : y ≡ x = cc (rw here at h) in subst (λ z. p z ≡ true) same here
  | inr elsewhere ↦ first-holds p ys x (rw elsewhere at h)
]

module _ (codec : Codec) (now : Time) (s t : Tables) (c : Claim) (commit : EvaluationCommit) where
  committed-revision :
      (r : Row)
      → is_committed codec now c commit.evaluation r ≡ true
      → r.evaluation_revision ≡ c.evaluation_revision
  committed-revision r h =
      ==→eq r.evaluation_revision c.evaluation_revision (and_split _ _ (and_split _ _ h).0).1

  abbrev pub after_update : Row → Tables
  after_update r = record s {
    assignments =
        update_where (is_committed codec now c commit.evaluation)
          (evaluated_row codec now commit.next_evaluation_at) s.assignments;
  }

  same_before :
      (r : Row) (revision : ℕ)
      → Recorded codec now (after_update r) t c.assignment revision commit.evaluation
      → Recorded codec now s t c.assignment revision commit.evaluation
  same_before r revision h = record {
    checkpoint = h.checkpoint;
    watermark = h.watermark;
    queued = h.queued;
    later = h.later;
  }

  commit_row-Recorded :
      (found : Option Row)
      → first (is_committed codec now c commit.evaluation) s.assignments ≡ found
      → commit_row codec now s c commit found ≡ ok t
      → Recorded codec now s t c.assignment (suc c.evaluation_revision) commit.evaluation
  unfolding commit_row
  commit_row-Recorded none f h = absurd (err-not_ok _ t h)
  commit_row-Recorded (some r) f h =
      >>=-elim (within_returned codec now commit.evaluation r.authority_from r.authority_until) _
        (λ _ _ rest.
          let revision = committed-revision r (first-holds _ s.assignments r f) in
          subst (λ n. Recorded codec now s t c.assignment (suc n) commit.evaluation) revision
            (same_before r (suc r.evaluation_revision) (
              write_evaluation-Recorded codec now
                (record s {
                  assignments =
                      update_where (is_committed codec now c commit.evaluation)
                        (evaluated_row codec now commit.next_evaluation_at) s.assignments;
                })
                t c.assignment (suc r.evaluation_revision) commit.evaluation rest)))
        h

-- A live commit that succeeds has recorded its evaluation as the revision after the claim's: as a new
-- checkpoint, with a cursor strictly after that of the assignment's checkpoint of the greatest revision
-- before, if there is one; as the confirmed summary, which is the watermark of a cutover; and as a
-- message to the registry in the outbox, unless a message with its identity was there, which is left.
pub commit_evaluation-Recorded :
    (codec : Codec) (now : Time) (s t : Tables) (c : Claim) (commit : EvaluationCommit)
    → commit_evaluation codec now s c commit ≡ ok t
    → Recorded codec now s t c.assignment (suc c.evaluation_revision) commit.evaluation
unfolding commit_evaluation
commit_evaluation-Recorded codec now s t c commit h =
    >>=-elim (validate_evaluation_commit commit) _
      (λ _ _ rest.
        commit_row-Recorded codec now s t c commit
          (first (is_committed codec now c commit.evaluation) s.assignments) refl rest)
      h
