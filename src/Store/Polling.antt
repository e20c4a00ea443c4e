-- ===== src/Store/Polling.antt =====
-- The polls of the worker on the store: `Run`, `Poll` and the store calls of `processClaim` and
-- `deferAfterError`, internal/worker/evaluation.go.
use aero_arc_conformance.Prelude.{
  is_empty, pos_part, neg_part, sub_ℕ, ◌+◌, ◌++◌, not, any_of, keep_if, Bool, true, false, ◌&&◌,
  if◌then◌else◌, Option, none, some, List, [], ◌∷◌, Result, ok, err,
}
use aero_arc_conformance.Domain.Time.{Time, Duration}
use aero_arc_conformance.Store.Tables.{Row, Tables, Codec, StoreError}
use aero_arc_conformance.Store.Leases.{
  claim_due_assignments_with_finalization_grace, defer_assignment_evaluation,
}
use aero_arc_conformance.Store.Evaluations.{commit_evaluation}
use aero_arc_conformance.Worker.Claim.{
  Config, Claim, WorkerError, wal_identity_unavailable, lease_lost, canceled, other,
}
use aero_arc_conformance.Worker.Process.{
  Decision, defer_claim, defer_after, give_up, commit, Dependencies, process_claim,
}

-- The sum of two durations.
abbrev pub plus_duration : Duration → Duration → Duration
plus_duration a b = sub_ℕ (pos_part a + pos_part b) (neg_part a + neg_part b)

-- What the worker tells apart of the store's errors.
abbrev pub worker_error : StoreError → WorkerError
worker_error StoreError.lease_lost = lease_lost
worker_error _ = other "store"

-- The tables, and the joined errors of a claim; the first is the one of the evaluation.
abbrev pub Processed : Type 0
Processed = Tables × List WorkerError

-- The tables, and the joined errors of each claim.
abbrev pub AllProcessed : Type 0
AllProcessed = Tables × List (List WorkerError)

-- What runs when a claim is processed: its dependencies, the worker's clock, and, for the store call
-- that ends it, PostgreSQL's clock and the error, such as a cancellation, that rolls it back.
pub record Processing : Type 0 where
  pub dependencies : Dependencies
  pub now : Time
  pub database_now : Time
  pub interrupted : Option WorkerError

-- What a poll meets: whether its context is cancelled, the order in which the last statements of the
-- goroutines reach the database with what each of them runs, PostgreSQL's clock, and the rows that
-- other transactions lock.
pub record PollInput : Type 0 where
  pub is_done : Bool
  pub order : List Claim → List (Processing × Claim)
  pub now : Time
  pub locked : Row → Bool

module _ (codec : Codec) (config : Config) where
  abbrev pub ended :
      Option WorkerError → Tables → List WorkerError → Result StoreError Tables → Processed
  ended (some e) s errors _ = (s, errors ++ (e ∷ []))
  ended none s errors (ok t) = (t, errors)
  ended none s errors (err e) = (s, errors ++ (worker_error e ∷ []))

  -- The store call of a decision.
  unfoldable pub execute : Option WorkerError → Time → Tables → Claim → Decision → Processed
  execute stop now s claim (defer_claim next) =
      ended stop s [] (defer_assignment_evaluation codec now s claim next)
  execute stop now s claim (defer_after cause next) =
      ended stop s (cause ∷ []) (defer_assignment_evaluation codec now s claim next)
  execute stop now s claim (give_up cause) = (s, cause ∷ [])
  execute stop now s claim (commit e next) =
      ended stop s []
        (commit_evaluation codec now s claim (record { evaluation = e; next_evaluation_at = next }))

  -- The claims of a batch, in the order in which their last statements reach the database.
  unfoldable pub process_all : Tables → List (Processing × Claim) → AllProcessed
  unfolding execute process_claim
  process_all s [] = (s, [])
  process_all s ((p, claim) ∷ rest) =
      let (t, errors) =
        execute p.interrupted p.database_now s claim
          (process_claim config p.dependencies claim p.now) in
      let (u, others) = process_all t rest in (u, errors ∷ others)

  abbrev is_terminal_error : WorkerError → Bool
  is_terminal_error wal_identity_unavailable = true
  is_terminal_error _ = false

  abbrev is_canceled : WorkerError → Bool
  is_canceled canceled = true
  is_canceled _ = false

  abbrev joined_errors : List (List WorkerError) → List WorkerError
  joined_errors [] = []
  joined_errors (errors ∷ rest) = errors ++ joined_errors rest

  -- The error of a poll: a missing WAL identity alone, or the errors of the claims, joined, less
  -- those that a cancelled context explains.
  unfoldable pub poll_errors : Bool → List (List WorkerError) → List WorkerError
  poll_errors is_done results =
      if any_of (λ errors. any_of is_terminal_error errors) results
      then wal_identity_unavailable ∷ []
      else joined_errors (keep_if (λ errors. not (any_of is_canceled errors && is_done)) results)

  abbrev pub polled :
      Bool
      → (List Claim → List (Processing × Claim))
      → Tables
      → Result StoreError (List Claim)
      → Processed
  polled is_done order s (err e) = (s, worker_error e ∷ [])
  polled is_done order s (ok claims) =
      let (t, results) = process_all s (order claims) in (t, poll_errors is_done results)

  unfoldable pub poll : PollInput → Tables → Processed
  unfolding process_all poll_errors
  poll input s =
      let (t, claims) =
        claim_due_assignments_with_finalization_grace codec input.now input.locked s
          config.worker_id config.lease_duration
          (plus_duration config.settle_delay config.poll_interval) config.claim_batch_size in
      polled input.is_done input.order t claims

  -- The polls of a run, the first at once and the others on the ticks, until the cancelled context is
  -- seen between two of them. The error is the one that the run ends with.
  unfoldable pub run : List PollInput → Tables → Processed
  unfolding poll
  run [] s = (s, [])
  run (input ∷ rest) s =
      let (t, errors) = poll input s in
      let later = run rest t in
      if any_of is_terminal_error errors
      then (t, errors)
      else if not (is_empty errors) && input.is_done
      then (t, [])
      else later
