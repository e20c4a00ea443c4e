-- ===== src/Worker/Process.antt =====
-- One claim: `processClaim`, `deferAfterError` and `firstRenewalError` of
-- internal/worker/evaluation.go, up to the store call that ends it.
use aero_arc_conformance.Prelude.{
  pos, negsuc, suc, ◌+◌, ◌-◌, Bool, true, false, not, ◌||◌, ◌==◌, ◌!=◌, nat_eq, if◌then◌else◌,
  Option, none, some, List, [], ◌∷◌, Result, ok, err,
}
use aero_arc_conformance.Domain.Time.{Time, Duration, add, before, after}
use aero_arc_conformance.Domain.Assignment.{Assignment, Observation}
use aero_arc_conformance.Domain.Incident.{EvaluatorState, Evaluation, empty_state}
use aero_arc_conformance.Evaluator.Policy.{InvalidInput}
use aero_arc_conformance.Worker.Claim.{
  Config, Claim, ReplayCheckpoint, WorkerError, checkpoint_mismatch, wal_identity_unavailable,
  lease_lost, canceled, invalid_batch,
}
use aero_arc_conformance.Worker.Split.{ReadResult}
use aero_arc_conformance.Worker.Suffix.{evaluable_suffix}

-- The store call that ends the claim. A deferral after an error also returns the error.
pub data Decision : Type 0 where
  defer_claim : Time → Decision
  defer_after : WorkerError → Time → Decision
  give_up : WorkerError → Decision
  commit : Evaluation → Time → Decision

abbrev pub is_terminal : WorkerError → Bool
is_terminal wal_identity_unavailable = true
is_terminal lease_lost = true
is_terminal canceled = true
is_terminal _ = false

unfoldable pub defer_after_error : WorkerError → Time → Decision
defer_after_error cause next = if is_terminal cause then give_up cause else defer_after cause next

-- t.Add(-d).
abbrev pub minus_duration : Time → Duration → Time
minus_duration t (pos n) = t - n
minus_duration t (negsuc n) = t + suc n

-- The settled end of the claim's telemetry.
unfoldable pub read_end : Config → Claim → Time → Time
read_end c claim now =
    let end = minus_duration now c.settle_delay in
    if before claim.authority_until end then claim.authority_until else end

-- The claim's revision and the checkpoint that was found do not belong together.
abbrev pub mismatched : Claim → Option ReplayCheckpoint → Bool
mismatched claim none = not (claim.evaluation_revision == 0)
mismatched claim (some c) =
    claim.evaluation_revision == 0 || c.evaluation_revision != claim.evaluation_revision

abbrev pub read_start : Config → Claim → Option ReplayCheckpoint → Time
read_start c claim none = claim.authority_from
read_start c claim (some checkpoint) =
    let start = minus_duration checkpoint.state_through_at c.overlap_window in
    if before start claim.authority_from then claim.authority_from else start

abbrev pub previous_state : Option ReplayCheckpoint → EvaluatorState
previous_state none = empty_state
previous_state (some c) = c.state

-- The claimed assignment with its authority interval as its effective window.
unfoldable pub evaluation_assignment : Claim → Assignment
evaluation_assignment claim =
    let a = claim.assignment in
    record a { effective_from = claim.authority_from; effective_until = claim.authority_until }

-- What the worker calls: the checkpoint query, the telemetry read and the engine; and what the
-- renewal goroutine has reported by the time of the commit.
pub record Dependencies : Type 0 where
  pub get_replay_checkpoint : Time → Result WorkerError (Option ReplayCheckpoint)
  pub read_complete : Time → Time → Result WorkerError ReadResult
  pub evaluate_batch :
      Assignment → List Observation → EvaluatorState → Result InvalidInput Evaluation
  pub renewal_error : Option WorkerError

module _ (c : Config) (deps : Dependencies) (claim : Claim) (now : Time) where
  abbrev pub next_poll : Time
  next_poll = add now c.poll_interval

  abbrev pub commit_unless_renewal_failed : Option WorkerError → Evaluation → Decision
  commit_unless_renewal_failed none e = commit e next_poll
  commit_unless_renewal_failed (some cause) e = give_up cause

  abbrev pub committed : Result InvalidInput Evaluation → Decision
  committed (err e) = defer_after_error (invalid_batch e) next_poll
  committed (ok e) = commit_unless_renewal_failed deps.renewal_error e

  -- From the suffix on.
  unfoldable pub evaluate_suffix : Option ReplayCheckpoint → List Observation → Decision
  evaluate_suffix checkpoint [] = defer_claim next_poll
  evaluate_suffix checkpoint (o ∷ os) =
      committed
        (deps.evaluate_batch (evaluation_assignment claim) (o ∷ os) (previous_state checkpoint))

  abbrev pub evaluate_read : Option ReplayCheckpoint → Result WorkerError ReadResult → Decision
  evaluate_read checkpoint (err cause) = defer_after_error cause next_poll
  evaluate_read checkpoint (ok r) =
      evaluate_suffix checkpoint (evaluable_suffix r.observations claim checkpoint)

  abbrev pub evaluate_from : Time → Result WorkerError (Option ReplayCheckpoint) → Decision
  evaluate_from end (err cause) = defer_after_error cause next_poll
  evaluate_from end (ok checkpoint) =
      if mismatched claim checkpoint
      then defer_after_error checkpoint_mismatch next_poll
      else evaluate_read checkpoint (deps.read_complete (read_start c claim checkpoint) end)

  unfoldable pub process_claim : Decision
  unfolding defer_after_error evaluate_suffix read_end
  process_claim =
      let end = read_end c claim now in
      if not (after end claim.authority_from)
      then defer_claim next_poll
      else evaluate_from end (deps.get_replay_checkpoint end)
