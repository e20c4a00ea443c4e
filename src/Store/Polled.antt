-- ===== src/Store/Polled.antt =====
-- What a poll does with each of its claims: `Poll` and `processClaim` of internal/worker/evaluation.go on
-- the store.
use aero_arc_conformance.Prelude.{
  sym, ◌≡◌, ◌⊎◌, refl, ap, Option, none, some, List, [], ◌∷◌, ◌++◌, Result, ok, err, All,
}
use mathlib.Core.Path.{subst}
use aero_arc_conformance.Domain.Time.{add}
use aero_arc_conformance.Domain.Incident.{Evaluation}
use aero_arc_conformance.Store.Tables.{Tables, Codec, StoreError}
use aero_arc_conformance.Store.Leases.{
  claim_due_assignments_with_finalization_grace, defer_assignment_evaluation,
}
use aero_arc_conformance.Store.Evaluations.{commit_evaluation}
use aero_arc_conformance.Store.Polling.{
  Processing, PollInput, plus_duration, worker_error, ended, execute, process_all, poll_errors,
  polled, poll,
}
use aero_arc_conformance.Worker.Claim.{Config, Claim, WorkerError}
use aero_arc_conformance.Worker.Committed.{Committed}
use aero_arc_conformance.Worker.Decided.{IsTerminal, IsTransient, Decided, process_claim-Decided}
use aero_arc_conformance.Worker.Process.{
  Decision, defer_claim, defer_after, give_up, commit, process_claim,
}

module _ (codec : Codec) (config : Config) where
  -- The deferral of the claim to the next poll.
  abbrev pub deferral : Processing → Claim → Tables → Result StoreError Tables
  deferral p c s =
      defer_assignment_evaluation codec p.database_now s c (add p.now config.poll_interval)

  abbrev pub commitment : Processing → Claim → Tables → Evaluation → Result StoreError Tables
  commitment p c s e =
      commit_evaluation codec p.database_now s c
        (record { evaluation = e; next_evaluation_at = add p.now config.poll_interval })

  -- The ways in which the processing of a claim ends, with the tables and the errors after it. `causes`
  -- is the transient error that led to a deferral, if there is one.
  pub data Ends (p : Processing) (c : Claim) (s : Tables) : Tables → List WorkerError → Type 0 where
    rescheduled :
        {t : Tables} (causes : List WorkerError)
        → All IsTransient causes
        → deferral p c s ≡ ok t
        → Ends p c s t causes
    recorded :
        {t : Tables} (e : Evaluation)
        → Committed config p.dependencies c p.now e (add p.now config.poll_interval)
        → commitment p c s e ≡ ok t
        → Ends p c s t []
    not_rescheduled :
        (causes : List WorkerError) (e : StoreError)
        → All IsTransient causes
        → deferral p c s ≡ err e
        → Ends p c s s (causes ++ (worker_error e ∷ []))
    not_recorded :
        (e : Evaluation) (cause : StoreError)
        → Committed config p.dependencies c p.now e (add p.now config.poll_interval)
        → commitment p c s e ≡ err cause
        → Ends p c s s (worker_error cause ∷ [])
    given_up :
        (cause : WorkerError)
        → IsTerminal cause ⊎ (p.dependencies.renewal_error ≡ some cause)
        → Ends p c s s (cause ∷ [])
    interrupted :
        (causes : List WorkerError) (cause : WorkerError)
        → All IsTransient causes
        → p.interrupted ≡ some cause
        → Ends p c s s (causes ++ (cause ∷ []))

  -- The claims of a batch, one after the other.
  pub data Processes
      : Tables → List (Processing × Claim) → Tables → List (List WorkerError) → Type 0 where
    all_processed : {s : Tables} → Processes s [] s []
    processes :
        {s t u : Tables} {p : Processing} {c : Claim} {rest : List (Processing × Claim)}
        {errors : List WorkerError} {others : List (List WorkerError)}
        → Ends p c s t errors
        → Processes t rest u others
        → Processes s ((p, c) ∷ rest) u (errors ∷ others)

  deferral-Ends :
      (p : Processing) (c : Claim) (s : Tables) (causes : List WorkerError)
      (stop : Option WorkerError) (r : Result StoreError Tables)
      → All IsTransient causes
      → p.interrupted ≡ stop
      → deferral p c s ≡ r
      → Ends p c s (ended codec config stop s causes r).0 (ended codec config stop s causes r).1
  deferral-Ends p c s causes (some cause) r transient stopped h =
      interrupted causes cause transient stopped
  deferral-Ends p c s causes none (ok t) transient stopped h = rescheduled causes transient h
  deferral-Ends p c s causes none (err e) transient stopped h = not_rescheduled causes e transient h

  commitment-Ends :
      (p : Processing) (c : Claim) (s : Tables) (e : Evaluation) (stop : Option WorkerError)
      (r : Result StoreError Tables)
      → Committed config p.dependencies c p.now e (add p.now config.poll_interval)
      → p.interrupted ≡ stop
      → commitment p c s e ≡ r
      → Ends p c s (ended codec config stop s [] r).0 (ended codec config stop s [] r).1
  commitment-Ends p c s e (some cause) r k stopped h = interrupted [] cause tt stopped
  commitment-Ends p c s e none (ok t) k stopped h = recorded e k h
  commitment-Ends p c s e none (err x) k stopped h = not_recorded e x k h

  execute-Ends :
      (p : Processing) (c : Claim) (s : Tables) (d : Decision)
      → Decided config p.dependencies c p.now d
      → Ends p c s
          (execute codec config p.interrupted p.database_now s c d).0
          (execute codec config p.interrupted p.database_now s c d).1
  unfolding execute
  execute-Ends p c s (defer_claim next) k =
      deferral-Ends p c s [] p.interrupted _ tt refl
        (ap (λ n. defer_assignment_evaluation codec p.database_now s c n) (sym k))
  execute-Ends p c s (defer_after cause next) k =
      deferral-Ends p c s (cause ∷ []) p.interrupted _ (k.1, tt) refl
        (ap (λ n. defer_assignment_evaluation codec p.database_now s c n) (sym k.0))
  execute-Ends p c s (give_up cause) k = given_up cause k
  execute-Ends p c s (commit e next) k =
      commitment-Ends p c s e p.interrupted _
        (subst (Committed config p.dependencies c p.now e) k.scheduled k) refl
        (ap
          (λ n.
            commit_evaluation codec p.database_now s c
              (record { evaluation = e; next_evaluation_at = n }))
          (sym k.scheduled))

  process_all-Processes :
      (s : Tables) (batch : List (Processing × Claim))
      → Processes s batch (process_all codec config s batch).0 (process_all codec config s batch).1
  unfolding process_all
  process_all-Processes s [] = all_processed
  process_all-Processes s ((p, c) ∷ rest) =
      let d = process_claim config p.dependencies c p.now in
      processes (execute-Ends p c s d (process_claim-Decided config p.dependencies c p.now))
        (process_all-Processes (execute codec config p.interrupted p.database_now s c d).0 rest)

  -- The claims that are due when the poll starts, and the tables with their leases.
  abbrev pub claimed : PollInput → Tables → Tables × Result StoreError (List Claim)
  claimed input s =
      claim_due_assignments_with_finalization_grace codec input.now input.locked s config.worker_id
        config.lease_duration (plus_duration config.settle_delay config.poll_interval)
        config.claim_batch_size

  -- A poll that claims nothing, or that processes what it has claimed.
  pub data Polls (input : PollInput) (s : Tables) : Tables → List WorkerError → Type 0 where
    claims_nothing :
        (e : StoreError)
        → (claimed input s).1 ≡ err e
        → Polls input s (claimed input s).0 (worker_error e ∷ [])
    processes_claims :
        {t : Tables} (claims : List Claim) (results : List (List WorkerError))
        → (claimed input s).1 ≡ ok claims
        → Processes (claimed input s).0 (input.order claims) t results
        → Polls input s t (poll_errors codec config input.is_done results)

  polled-Polls :
      (input : PollInput) (s : Tables) (r : Result StoreError (List Claim))
      → (claimed input s).1 ≡ r
      → Polls input s
          (polled codec config input.is_done input.order (claimed input s).0 r).0
          (polled codec config input.is_done input.order (claimed input s).0 r).1
  polled-Polls input s (err e) h = claims_nothing e h
  polled-Polls input s (ok claims) h =
      processes_claims claims (process_all codec config (claimed input s).0 (input.order claims)).1
        h (process_all-Processes (claimed input s).0 (input.order claims))

-- A poll claims the due assignments, and each claim of its batch, in whatever order, ends in one of six
-- ways: its own assignment is deferred to the next poll, after no error or a transient one; an evaluation
-- that was read behind its checkpoint, evaluated without an error and not preceded by a failed renewal is
-- committed under this claim, with the next evaluation due at the next poll; the store refuses either of
-- them; the claim is given up, because the WAL identity is missing, the lease is lost, the context is
-- cancelled or the renewal has failed; or the statement is interrupted. In the last four ways the tables
-- stay and the error is reported.
pub poll-Polls :
    (codec : Codec) (config : Config) (input : PollInput) (s : Tables)
    → Polls codec config input s (poll codec config input s).0 (poll codec config input s).1
unfolding poll
poll-Polls codec config input s =
    polled-Polls codec config input s (claimed codec config input s).1 refl
