-- ===== src/Store/Commit.antt =====
-- The guards of an evaluation commit: `validateEvaluationCommit`, `validateEvaluationWithinAuthority`
-- and `compareEvaluationCursor` of internal/store/postgres/store.go. Which error is returned does
-- not matter, so the order in which Go ranges over the incident states does not either.
use aero_arc_conformance.Prelude.{
  ℕ, Bool, false, not, ◌&&◌, ◌||◌, ◌==◌, ◌!=◌, nat_eq, string_eq, str_lt, ltb, leb, if◌then◌else◌,
  Option, none, some, String, Result, ◌>>◌, fail_if, any_of,
}
use aero_arc_conformance.Domain.Time.{
  Time, UnixNano, is_zero, after, supported_unix_nanoseconds, unix_nano,
}
use aero_arc_conformance.Domain.Incident.{
  IncidentState, IncidentTransition, Evaluation, EvaluatorState,
}
use aero_arc_conformance.Store.Tables.{StoreError, max_int64}

pub record EvaluationCommit : Type 0 where
  pub evaluation : Evaluation
  pub next_evaluation_at : Time

unfoldable pub is_incomplete : EvaluationCommit → Bool
is_incomplete c =
    let e = c.evaluation in
    is_zero c.next_evaluation_at
    || is_zero e.causal_from
    || is_zero e.observed_at
    || not (supported_unix_nanoseconds e.causal_from)
    || not (supported_unix_nanoseconds e.observed_at)
    || after e.causal_from e.observed_at
    || e.frame_id == ""
    || e.wal_id == ""
    || ltb max_int64 e.wal_sequence

unfoldable pub is_incomplete_transition : Time → IncidentTransition → Bool
is_incomplete_transition watermark t =
    is_zero t.observed_at
    || not (supported_unix_nanoseconds t.observed_at)
    || after t.observed_at watermark
    || t.frame_id == ""
    || t.opening_frame_id == ""
    || t.wal_id == ""
    || ltb max_int64 t.wal_sequence

unfoldable pub validate_evaluation_commit : EvaluationCommit → Result StoreError (Unit {0})
unfolding is_incomplete is_incomplete_transition
validate_evaluation_commit c =
    fail_if (is_incomplete c) StoreError.incomplete_evaluation
    >> fail_if (any_of (is_incomplete_transition c.evaluation.observed_at) c.evaluation.transitions)
        StoreError.incomplete_evaluation

module _ (watermark : Time) (from until : UnixNano) where
  -- `validateTimestamp` returns an error.
  unfoldable pub is_bad_timestamp : Time → Bool
  is_bad_timestamp t =
      not (is_zero t)
      && (not (supported_unix_nanoseconds t)
          || after t watermark
          || ltb (unix_nano t) from
          || leb until (unix_nano t))

  -- One of the three timestamps of a retained state.
  unfoldable pub is_bad_incident : Option IncidentState → Bool
  unfolding is_bad_timestamp
  is_bad_incident none = false
  is_bad_incident (some i) =
      is_bad_timestamp i.first_suspected_at
      || is_bad_timestamp i.opened_at
      || is_bad_timestamp i.last_observed_at

  unfoldable pub is_bad_state : EvaluatorState → Bool
  unfolding is_bad_incident
  is_bad_state s =
      is_bad_incident s.lateral
      || is_bad_incident s.vertical
      || is_bad_incident s.temporal
      || is_bad_incident s.telemetry_loss

unfoldable pub validate_evaluation_within_authority :
    Evaluation → UnixNano → UnixNano → Result StoreError (Unit {0})
unfolding is_bad_timestamp is_bad_state
validate_evaluation_within_authority e from until =
    fail_if (leb until from) StoreError.invalid_transition
    >> fail_if (is_bad_timestamp e.observed_at from until e.observed_at)
        StoreError.invalid_transition
    >> fail_if (is_bad_timestamp e.observed_at from until e.causal_from)
        StoreError.invalid_transition
    >> fail_if (any_of (λ t. is_bad_timestamp e.observed_at from until t.observed_at) e.transitions)
        StoreError.invalid_transition
    >> fail_if (is_bad_state e.observed_at from until e.state) StoreError.invalid_transition

-- The sign of Go's comparison.
pub data Sign : Type 0 where
  less equal greater : Sign

unfoldable pub compare_evaluation_cursor : Evaluation → UnixNano → String → ℕ → String → Sign
compare_evaluation_cursor e observed wal_id wal_sequence frame_id =
    if unix_nano e.observed_at != observed
    then (if ltb (unix_nano e.observed_at) observed then Sign.less else Sign.greater)
    else if e.wal_id != wal_id
    then (if str_lt e.wal_id wal_id then Sign.less else Sign.greater)
    else if e.wal_sequence != wal_sequence
    then (if ltb e.wal_sequence wal_sequence then Sign.less else Sign.greater)
    else if e.frame_id != frame_id
    then (if str_lt e.frame_id frame_id then Sign.less else Sign.greater)
    else Sign.equal
