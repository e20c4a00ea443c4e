-- ===== src/Scenarios/Leases.antt =====
-- The flight's assignment, claimed, committed, claimed again and published.
use mathlib.Core.Path.{◌≡◌, refl}
use aero_arc_conformance.Prelude.{
  All, inl, inr, if◌then◌else◌, ◌==◌, nat_eq, ◌+◌, ◌≢◌, pos, Bool, false, none, some, List, [], ◌∷◌,
  ok, err, Result, arith, ℕ, is_blank,
}
use aero_arc_conformance.Domain.Time.{Time, unix_nano, from_unix_nano, supported_unix_nanoseconds}
use aero_arc_conformance.Domain.Float.{zero_float}
use aero_arc_conformance.Domain.Types.{
  AssignmentLifecycle, ViolationType, Transition, Condition, MonitoringStatus, RecordingStatus,
}
use aero_arc_conformance.Domain.Incident.{Evaluation, IncidentTransition, empty_state}
use aero_arc_conformance.Store.Rows.{undelivered}
use aero_arc_conformance.Store.Tables.{Codec, Row, Tables, StoreError, OutboxRow, evaluated}
use aero_arc_conformance.Store.Leases.{
  owns, claim_due_assignments_with_finalization_grace, renew_assignment_lease,
}
use aero_arc_conformance.Store.Commit.{
  EvaluationCommit, validate_evaluation_commit, validate_evaluation_within_authority,
  compare_evaluation_cursor,
}
use aero_arc_conformance.Store.Write.{write_evaluation}
use aero_arc_conformance.Store.Evaluations.{commit_evaluation}
use aero_arc_conformance.Store.Fencing.{IsIssued}
use aero_arc_conformance.Store.Takeover.{
  IsRefused, no_step, next_step, renews, claims_due, claim-IsRefused,
}
use aero_arc_conformance.Store.Recorded.{Recorded, commit_evaluation-Recorded}
use aero_arc_conformance.Store.Once.{commit_evaluation-commit_evaluation}
use aero_arc_conformance.Store.Outbox.{OutboxClaim, claim_outbox, mark_outbox_delivered}
use aero_arc_conformance.Store.Sequence.{InSequence}
use aero_arc_conformance.Store.InOrder.{
  untouched, followed_by, claims_messages, marks_delivered, OutboxSteps-InSequence, IsLatest,
  commits_evaluation, leaves_outbox,
}
use aero_arc_conformance.Worker.Claim.{Claim}
use aero_arc_conformance.Scenarios.Commands.{plain_codec, no_tables}
use aero_arc_conformance.Scenarios.Flight.{flight, takeoff, value_or}

abbrev pub active_row : Row
active_row = record {
  assignment = flight;
  lifecycle = AssignmentLifecycle.active;
  authority_from = some (unix_nano takeoff);
  authority_until = some (unix_nano (takeoff + 100));
  authority_until_at = some (takeoff + 100);
  next_evaluation_at = takeoff;
  lease_owner = none;
  lease_generation = 0;
  lease_until = none;
  evaluation_revision = 0;
  prepared_at = takeoff;
  armed_at = some takeoff;
  cutover_at = some takeoff;
}

abbrev pub nothing_locked : Row → Bool
nothing_locked r = false

abbrev pub before_claims : Tables
before_claims = record no_tables { assignments = active_row ∷ [] }

abbrev claim_by : Time → Tables → Tables × Result StoreError (List Claim)
claim_by now s =
    claim_due_assignments_with_finalization_grace plain_codec now nothing_locked s "worker" (pos 30)
      (pos 0) (pos 1)

abbrev pub claimed : Tables
claimed = (claim_by (takeoff + 10) before_claims).0

abbrev claim_number : ℕ → Time → Claim
claim_number n until = record {
  assignment = flight;
  authority_from = takeoff;
  authority_until = takeoff + 100;
  finalization_grace = pos 0;
  worker_id = "worker";
  lease_generation = n;
  lease_until = until;
  evaluation_revision = 0;
}

abbrev first_claim : Claim
first_claim = claim_number 1 (takeoff + 40)

abbrev second_claim : Claim
second_claim = claim_number 2 (takeoff + 80)

abbrev claimed_again : Tables
claimed_again = (claim_by (takeoff + 50) claimed).0

first_claim-IsIssued : IsIssued first_claim claimed
unfolding claim_due_assignments_with_finalization_grace
first_claim-IsIssued = ((λ same. omega arith), tt)

second_claim-ok : (claim_by (takeoff + 50) claimed).1 ≡ ok (second_claim ∷ [])
unfolding claim_due_assignments_with_finalization_grace unix_nano from_unix_nano
second_claim-ok = refl

abbrev renewed : Tables
renewed =
    value_or no_tables
      (renew_assignment_lease plain_codec (takeoff + 60) claimed_again second_claim (pos 30))

renewed-ok :
    renew_assignment_lease plain_codec (takeoff + 60) claimed_again second_claim (pos 30)
    ≡ ok renewed
unfolding claim_due_assignments_with_finalization_grace renew_assignment_lease
renewed-ok = refl

claim-IsRefused_example : IsRefused plain_codec renewed first_claim
claim-IsRefused_example =
    claim-IsRefused plain_codec (takeoff + 50) nothing_locked claimed renewed first_claim "worker"
      (pos 30) (pos 0) (pos 1) (second_claim ∷ []) first_claim-IsIssued second_claim-ok refl
      (next_step no_step (renews (takeoff + 60) second_claim (pos 30) renewed-ok))

abbrev opening : IncidentTransition
opening = record {
  violation = ViolationType.lateral;
  transition = Transition.opened;
  observed_at = takeoff + 10;
  frame_id = "f1";
  opening_frame_id = "f1";
  wal_id = "wal";
  wal_sequence = 1;
  deviation_m = zero_float;
}

abbrev pub evaluation : Evaluation
evaluation = record {
  condition = Condition.non_conforming;
  monitoring = MonitoringStatus.current;
  recording = RecordingStatus.pending;
  state = empty_state;
  transitions = opening ∷ [];
  causal_from = takeoff + 5;
  observed_at = takeoff + 10;
  frame_id = "f1";
  wal_id = "wal";
  wal_sequence = 1;
}

abbrev commit : EvaluationCommit
commit = record { evaluation = evaluation; next_evaluation_at = takeoff + 30 }

abbrev pub committed : Tables
committed =
    value_or no_tables (commit_evaluation plain_codec (takeoff + 20) claimed first_claim commit)

committed-ok :
    commit_evaluation plain_codec (takeoff + 20) claimed first_claim commit ≡ ok committed
unfolding claim_due_assignments_with_finalization_grace commit_evaluation validate_evaluation_commit
    supported_unix_nanoseconds owns unix_nano validate_evaluation_within_authority write_evaluation
committed-ok = refl

commit_evaluation-Recorded_example :
    Recorded plain_codec (takeoff + 20) claimed committed flight 1 evaluation
commit_evaluation-Recorded_example =
    commit_evaluation-Recorded plain_codec (takeoff + 20) claimed committed first_claim commit
      committed-ok

commit_evaluation-commit_evaluation_example :
    commit_evaluation plain_codec
      (takeoff + 25)
      (claim_by (takeoff + 24) committed).0
      first_claim
      commit
    ≢ ok committed
unfolding claim_due_assignments_with_finalization_grace
commit_evaluation-commit_evaluation_example =
    commit_evaluation-commit_evaluation plain_codec (takeoff + 20) (takeoff + 25) claimed committed
      (claim_by (takeoff + 24) committed).0 committed first_claim commit commit (omega arith)
      committed-ok
      (next_step no_step
        (claims_due (takeoff + 24) nothing_locked "worker" (pos 30) (pos 0) (pos 1)))

abbrev pub message : OutboxRow
message = record {
  outbox_id = "registry:assignment:1:1";
  destination = "registry";
  idempotency_key = "registry:assignment:1:1";
  assignment_id = "assignment";
  generation = 1;
  evaluation_revision = 1;
  payload = evaluated evaluation;
  delivery = undelivered (takeoff + 20);
}

abbrev pub enqueued : Tables
enqueued = record before_claims { outbox = message ∷ [] }

abbrev pub nothing_held : OutboxRow → Bool
nothing_held o = false

abbrev pub publishing : Tables × Result StoreError (List OutboxClaim)
publishing =
    claim_outbox plain_codec (takeoff + 30) (λ p. err StoreError.corrupt_row) nothing_held enqueued
      "registry" "publisher" (pos 10) (pos 5)

abbrev pub message_claim : OutboxClaim
message_claim = record {
  id = "registry:assignment:1:1";
  destination = "registry";
  idempotency_key = "registry:assignment:1:1";
  assignment = flight;
  evaluation_revision = 1;
  evaluation = evaluation;
  worker_id = "publisher";
  lease_generation = 1;
  lease_until = some (takeoff + 40);
  attempt_count = 1;
}

-- A codec that tells the first revision from the second one.
abbrev counting_codec : Codec
counting_codec = record plain_codec { sprint = λ n. if n == 1 then "1" else "2" }

abbrev committed_once : Tables
committed_once =
    value_or no_tables (commit_evaluation counting_codec (takeoff + 20) claimed first_claim commit)

committed_once-ok :
    commit_evaluation counting_codec (takeoff + 20) claimed first_claim commit ≡ ok committed_once
unfolding claim_due_assignments_with_finalization_grace commit_evaluation validate_evaluation_commit
    supported_unix_nanoseconds owns unix_nano validate_evaluation_within_authority write_evaluation
committed_once-ok = refl

-- The next evaluation of the flight, claimed and committed behind the first one.
abbrev next_claim : Claim
next_claim = record {
  assignment = flight;
  authority_from = takeoff;
  authority_until = takeoff + 100;
  finalization_grace = pos 0;
  worker_id = "worker";
  lease_generation = 2;
  lease_until = takeoff + 65;
  evaluation_revision = 1;
}

abbrev next_commit : EvaluationCommit
next_commit = record {
  evaluation = record evaluation {
    transitions = [];
    observed_at = takeoff + 20;
    frame_id = "f2";
    wal_sequence = 2;
  };
  next_evaluation_at = takeoff + 60;
}

abbrev reclaimed : Tables
reclaimed = (claim_by (takeoff + 35) committed_once).0

abbrev committed_twice : Tables
committed_twice =
    value_or no_tables
      (commit_evaluation counting_codec (takeoff + 40) reclaimed next_claim next_commit)

committed_twice-ok :
    commit_evaluation counting_codec (takeoff + 40) reclaimed next_claim next_commit
    ≡ ok committed_twice
unfolding claim_due_assignments_with_finalization_grace commit_evaluation validate_evaluation_commit
    supported_unix_nanoseconds owns unix_nano validate_evaluation_within_authority write_evaluation
    compare_evaluation_cursor
committed_twice-ok = refl

abbrev twice_publishing : Tables × Result StoreError (List OutboxClaim)
twice_publishing =
    claim_outbox counting_codec (takeoff + 50) (λ p. err StoreError.corrupt_row) nothing_held
      committed_twice "registry" "publisher" (pos 10) (pos 5)

abbrev delivered : Tables
delivered =
    value_or no_tables (mark_outbox_delivered (takeoff + 55) twice_publishing.0 message_claim)

delivered-ok : mark_outbox_delivered (takeoff + 55) twice_publishing.0 message_claim ≡ ok delivered
unfolding claim_due_assignments_with_finalization_grace commit_evaluation validate_evaluation_commit
    supported_unix_nanoseconds owns unix_nano validate_evaluation_within_authority write_evaluation
    compare_evaluation_cursor claim_outbox mark_outbox_delivered is_blank
delivered-ok = refl

committed_once-IsLatest : All (IsLatest flight 2) reclaimed.outbox
unfolding claim_due_assignments_with_finalization_grace commit_evaluation validate_evaluation_commit
    supported_unix_nanoseconds owns unix_nano validate_evaluation_within_authority write_evaluation
    compare_evaluation_cursor
committed_once-IsLatest = (
  λ registry assignment later. elim later [
    | inl newer ↦ absurd (omega arith)
    | inr (same, newer) ↦ absurd (omega arith)
  ],
  tt,
)

OutboxSteps-InSequence_example : InSequence delivered.outbox
unfolding claim_due_assignments_with_finalization_grace
OutboxSteps-InSequence_example =
    OutboxSteps-InSequence counting_codec claimed delivered
      (followed_by
        (followed_by
          (followed_by
            (followed_by
              (followed_by untouched
                (commits_evaluation (takeoff + 20) first_claim commit committed_once-ok tt))
              (leaves_outbox refl))
            (commits_evaluation (takeoff + 40) next_claim next_commit committed_twice-ok
              committed_once-IsLatest))
          (claims_messages (takeoff + 50) (λ p. err StoreError.corrupt_row) nothing_held "registry"
            "publisher" (pos 10) (pos 5)))
        (marks_delivered (takeoff + 55) message_claim delivered-ok))
      (record { in_turn = tt; unique = tt })
