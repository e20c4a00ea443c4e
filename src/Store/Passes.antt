-- ===== src/Store/Passes.antt =====
-- The worker's evaluation at the store: `processClaim` of internal/worker/evaluation.go and
-- `CommitEvaluation` of internal/store/postgres/store.go.
use aero_arc_conformance.Prelude.{
  suc, ◌≤◌, ◌<◌, ◌≡◌, refl, true, false, Option, none, some, ok, arith,
}
use aero_arc_conformance.Domain.Time.{Time, unix_nano, supported_unix_nanoseconds}
use aero_arc_conformance.Domain.Incident.{Evaluation}
use aero_arc_conformance.Store.Rows.{CheckpointRow}
use aero_arc_conformance.Store.Tables.{Row, Tables, Codec, update_where}
use aero_arc_conformance.Store.Write.{
  check_watermark, newest_checkpoint, write_evaluation, write_confirmed, confirmed,
}
use aero_arc_conformance.Store.Evaluations.{
  commit_row, within_returned, is_committed, evaluated_row,
}
use aero_arc_conformance.Store.Admits.{
  Fenced-validate_evaluation_within_authority, Fenced-compare_evaluation_cursor,
}
use aero_arc_conformance.Worker.Claim.{Claim, ReplayCheckpoint}
use aero_arc_conformance.Worker.Fenced.{Fenced}

-- The row is the checkpoint that the worker has, in the store's form.
pub record Stores (d : CheckpointRow) (k : ReplayCheckpoint) : Type 0 where
  pub supported : supported_unix_nanoseconds k.state_through_at ≡ true
  pub through : d.state_through_at ≡ unix_nano k.state_through_at
  pub wal : d.wal_id ≡ k.wal_id
  pub sequence : d.wal_sequence ≡ k.wal_sequence
  pub frame : d.frame_id ≡ k.frame_id

abbrev pub SameCheckpoint : Option CheckpointRow → Option ReplayCheckpoint → Type 0
SameCheckpoint none none = Unit
SameCheckpoint (some d) (some k) = Stores d k
SameCheckpoint _ _ = ⊥

-- The authority of the row is the claim's.
pub record HasAuthority (claim : Claim) (r : Row) : Type 0 where
  pub low : supported_unix_nanoseconds claim.authority_from ≡ true
  pub high : supported_unix_nanoseconds claim.authority_until ≡ true
  pub from : r.authority_from ≡ some (unix_nano claim.authority_from)
  pub until : r.authority_until ≡ some (unix_nano claim.authority_until)

inside-supported :
    (lo mid hi : Time)
    → supported_unix_nanoseconds lo ≡ true
    → supported_unix_nanoseconds hi ≡ true
    → lo ≤ mid
    → mid < hi
    → supported_unix_nanoseconds mid ≡ true
unfolding supported_unix_nanoseconds
inside-supported lo mid hi h k l m = ground arith

check-passes :
    (claim : Claim) (c : Option ReplayCheckpoint) (found : Option CheckpointRow) (e : Evaluation)
    → supported_unix_nanoseconds e.observed_at ≡ true
    → Fenced claim c e
    → SameCheckpoint found c
    → check_watermark e false found ≡ ok tt
unfolding check_watermark
check-passes claim none none e seen f same = refl
check-passes claim (some k) (some d) e seen f same = rw (same.through) (
    rw (same.wal) (
      rw (same.sequence) (
        rw (same.frame)
          (rw (Fenced-compare_evaluation_cursor claim k e same.supported seen f) refl))))
check-passes claim none (some d) e seen f same = absurd same
check-passes claim (some k) none e seen f same = absurd same

-- What the worker fenced for a claim passes every test between the store's fence on the claim and its
-- writes: where the fence finds a row with the claim's authority, the bounds of which can be stored,
-- and the newest checkpoint is the one that the worker evaluated from, the commit is what the writes
-- of the evaluation make of it, so that only they can fail.
pub Fenced-commit_row :
    (codec : Codec) (now : Time) (s : Tables) (claim : Claim) (c : Option ReplayCheckpoint)
    (e : Evaluation) (next : Time) (r : Row)
    → Fenced claim c e
    → HasAuthority claim r
    → SameCheckpoint
        (newest_checkpoint claim.assignment.id claim.assignment.generation s.checkpoints)
        c
    → commit_row codec now s claim (record { evaluation = e; next_evaluation_at = next }) (some r)
      ≡ write_confirmed codec claim.assignment
          (suc r.evaluation_revision)
          (confirmed e)
          now
          true
          (record s {
            assignments =
                update_where
                  (is_committed codec now claim e)
                  (evaluated_row codec now next)
                  s.assignments;
          })
unfolding commit_row within_returned write_evaluation
Fenced-commit_row codec now s claim c e next r f authority same =
    let seen =
      inside-supported claim.authority_from e.observed_at claim.authority_until authority.low
        authority.high (omega (arith, f.causal_start, f.causal_end)) f.inside in
    let valid =
      Fenced-validate_evaluation_within_authority claim c e authority.low authority.high f in
    let current =
      check-passes claim c
        (newest_checkpoint claim.assignment.id claim.assignment.generation s.checkpoints) e seen f
        same in
    rw (authority.from) (rw (authority.until) (rw valid (rw current refl)))
