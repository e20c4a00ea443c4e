-- ===== src/Store/Evaluations.antt =====
-- Evaluation commits and replay checkpoints: `CommitEvaluation`, `CommitHistoricalEvaluation` and
-- `GetReplayCheckpoint` of internal/store/postgres/store.go. A transaction that fails leaves the tables as
-- they were, so that only a success returns tables.
use aero_arc_conformance.Prelude.{
  ℕ, suc, Bool, true, false, not, ◌&&◌, ◌||◌, ◌==◌, nat_eq, string_eq, str_lt, ltb, leb,
  if◌then◌else◌, Option, none, some, List, [], ◌∷◌, String, Result, err, ◌>>=◌, ◌>>◌, fail_if,
}
use aero_arc_conformance.Domain.Time.{
  Time, UnixNano, unix_nano, from_unix_nano, supported_unix_nanoseconds,
}
use aero_arc_conformance.Domain.Types.{AssignmentLifecycle}
use aero_arc_conformance.Domain.Incident.{Evaluation}
use aero_arc_conformance.Store.Rows.{CheckpointRow}
use aero_arc_conformance.Store.Tables.{
  Row, Tables, Codec, StoreError, has_key, max_int64, first, update_where,
}
use aero_arc_conformance.Store.Commit.{
  EvaluationCommit, validate_evaluation_commit, validate_evaluation_within_authority,
}
use aero_arc_conformance.Store.Leases.{holds_for, owns_revision, update_owned}
use aero_arc_conformance.Store.Write.{is_checkpoint_of, write_evaluation}
use aero_arc_conformance.Worker.Claim.{Claim, ReplayCheckpoint}

-- authority_from_unix_ns<=$n AND $n<authority_until_unix_ns.
abbrev pub authorizes_at : UnixNano → Row → Bool
authorizes_at observed r =
    holds_for (λ from. leb from observed) r.authority_from
    && holds_for (λ until. ltb observed until) r.authority_until

abbrev pub is_superseded : AssignmentLifecycle → Bool
is_superseded AssignmentLifecycle.superseded = true
is_superseded _ = false

module _ (codec : Codec) (now : Time) where
  -- The row that the first statement updates.
  abbrev pub is_committed : Claim → Evaluation → Row → Bool
  is_committed c e r = owns_revision codec now c r && authorizes_at (unix_nano e.observed_at) r

  abbrev pub evaluated_row : Time → Row → Row
  evaluated_row next r = record r {
    evaluation_revision = suc r.evaluation_revision;
    next_evaluation_at = codec.timestamptz next;
    lease_owner = none;
    lease_until = none;
  }

  -- The authority that the row returns, in which the evaluation must lie.
  unfoldable pub within_returned :
      Evaluation → Option UnixNano → Option UnixNano → Result StoreError (Unit {0})
  within_returned e (some from) (some until) = validate_evaluation_within_authority e from until
  within_returned e _ _ = err StoreError.corrupt_row

  unfoldable pub commit_row :
      Tables → Claim → EvaluationCommit → Option Row → Result StoreError Tables
  unfolding within_returned
  commit_row s c commit none = err StoreError.lease_lost
  commit_row s c commit (some r) =
      within_returned commit.evaluation r.authority_from r.authority_until
      >> write_evaluation codec now
          (record s {
            assignments =
                update_where (is_committed c commit.evaluation)
                  (evaluated_row commit.next_evaluation_at) s.assignments;
          })
          c.assignment (suc r.evaluation_revision) commit.evaluation false true

  unfoldable pub commit_evaluation : Tables → Claim → EvaluationCommit → Result StoreError Tables
  unfolding commit_row
  commit_evaluation s c commit =
      validate_evaluation_commit commit
      >> commit_row s c commit (first (is_committed c commit.evaluation) s.assignments)

  -- The row of the current generation, whose lease the reconciliation consumes.
  abbrev pub is_consumed : Claim → Row → Bool
  is_consumed c r =
      owns_revision codec now c r && holds_for (λ until. ltb now until) r.authority_until_at

  abbrev pub consumed_row : Time → Row → Row
  consumed_row next r = record r {
    next_evaluation_at = codec.timestamptz next;
    lease_owner = none;
    lease_until = none;
  }

  abbrev pub is_historical : String → ℕ → Evaluation → Row → Bool
  is_historical id generation e r =
      has_key id generation r
      && is_superseded r.lifecycle
      && authorizes_at (unix_nano e.observed_at) r

  abbrev pub reconciled_row : Row → Row
  reconciled_row r = record r { evaluation_revision = suc r.evaluation_revision }

  unfoldable pub reconcile_row :
      Tables → (Row → Bool) → EvaluationCommit → Option Row → Result StoreError Tables
  unfolding within_returned
  reconcile_row s p commit none = err StoreError.invalid_transition
  reconcile_row s p commit (some r) =
      within_returned commit.evaluation r.authority_from r.authority_until
      >> write_evaluation codec now
          (record s { assignments = update_where p reconciled_row s.assignments }) r.assignment
          (suc r.evaluation_revision) commit.evaluation true false

  unfoldable pub commit_historical_evaluation :
      Tables → Claim → ℕ → EvaluationCommit → Result StoreError Tables
  unfolding reconcile_row
  commit_historical_evaluation s c generation commit =
      validate_evaluation_commit commit
      >> fail_if
          (generation == 0
            || ltb max_int64 generation
            || leb c.assignment.generation generation
            || not (supported_unix_nanoseconds commit.evaluation.observed_at))
          StoreError.invalid_target
      >> update_owned codec now (is_consumed c) (consumed_row commit.next_evaluation_at) s
      >>= λ t.
          let p = is_historical c.assignment.id generation commit.evaluation in
          reconcile_row t p commit (first p t.assignments)

-- The order of the cursors, the latest first.
abbrev later_state : CheckpointRow → CheckpointRow → Bool
later_state c d =
    ltb d.state_through_at c.state_through_at
    || (d.state_through_at == c.state_through_at
        && (str_lt d.wal_id c.wal_id
            || (d.wal_id == c.wal_id
                && (ltb d.wal_sequence c.wal_sequence
                    || (d.wal_sequence == c.wal_sequence && str_lt d.frame_id c.frame_id)))))

abbrev later_checkpoint : CheckpointRow → Option CheckpointRow → CheckpointRow
later_checkpoint c none = c
later_checkpoint c (some d) = if later_state d c then d else c

-- The last cursor up to a boundary.
unfoldable pub checkpoint_before : String → ℕ → UnixNano → List CheckpointRow → Option CheckpointRow
checkpoint_before id generation boundary [] = none
checkpoint_before id generation boundary (c ∷ cs) =
    let rest = checkpoint_before id generation boundary cs in
    if is_checkpoint_of id generation c && leb c.state_through_at boundary
    then some (later_checkpoint c rest)
    else rest

abbrev pub replay_checkpoint : CheckpointRow → ReplayCheckpoint
replay_checkpoint c = record {
  evaluation_revision = c.evaluation_revision;
  state_through_at = from_unix_nano c.state_through_at;
  wal_id = c.wal_id;
  wal_sequence = c.wal_sequence;
  frame_id = c.frame_id;
  state = c.evaluator_state;
}

abbrev found_checkpoint : Option CheckpointRow → Option ReplayCheckpoint
found_checkpoint none = none
found_checkpoint (some c) = some (replay_checkpoint c)

unfoldable pub get_replay_checkpoint : Tables → String → ℕ → Time → Option ReplayCheckpoint
unfolding checkpoint_before
get_replay_checkpoint s id generation at_or_before =
    found_checkpoint (checkpoint_before id generation (unix_nano at_or_before) s.checkpoints)
