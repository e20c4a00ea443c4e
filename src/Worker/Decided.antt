-- ===== src/Worker/Decided.antt =====
-- What `processClaim` decides on each of its ways out: internal/worker/evaluation.go.
use aero_arc_conformance.Prelude.{
  ◌≡◌, ◌⊎◌, refl, inl, inr, true, false, Option, none, some, List, [], ◌∷◌, Result, ok, err,
  Bool-cases,
}
use aero_arc_conformance.Domain.Time.{Time, add, after}
use aero_arc_conformance.Domain.Assignment.{Observation}
use aero_arc_conformance.Domain.Incident.{Evaluation}
use aero_arc_conformance.Evaluator.Policy.{InvalidInput}
use aero_arc_conformance.Worker.Claim.{
  Config, Claim, ReplayCheckpoint, WorkerError, wal_identity_unavailable, lease_lost, canceled,
  invalid_batch, checkpoint_mismatch, window_saturated, other,
}
use aero_arc_conformance.Worker.Split.{ReadResult}
use aero_arc_conformance.Worker.Suffix.{evaluable_suffix}
use aero_arc_conformance.Worker.Committed.{Committed, process_claim-Committed}
use aero_arc_conformance.Worker.Process.{
  Decision, defer_claim, defer_after, give_up, commit, Dependencies, process_claim, is_terminal,
  defer_after_error, read_end, read_start, mismatched, committed, commit_unless_renewal_failed,
  evaluate_suffix, evaluate_read, evaluate_from,
}

-- The errors that end a claim without a deferral.
abbrev pub IsTerminal : WorkerError → Type 0
IsTerminal e = (e ≡ wal_identity_unavailable) ⊎ ((e ≡ lease_lost) ⊎ (e ≡ canceled))

abbrev pub IsTransient : WorkerError → Type 0
IsTransient e = ¬ (IsTerminal e)

is_terminal-IsTerminal : (e : WorkerError) → is_terminal e ≡ true → IsTerminal e
is_terminal-IsTerminal wal_identity_unavailable h = inl refl
is_terminal-IsTerminal lease_lost h = inr (inl refl)
is_terminal-IsTerminal canceled h = inr (inr refl)
is_terminal-IsTerminal checkpoint_mismatch h = cc
is_terminal-IsTerminal (invalid_batch i) h = cc
is_terminal-IsTerminal window_saturated h = cc
is_terminal-IsTerminal (other text) h = cc

not_terminal-IsTransient : (e : WorkerError) → is_terminal e ≡ false → IsTransient e
not_terminal-IsTransient e h (inl same) = cc
not_terminal-IsTransient e h (inr (inl same)) = cc
not_terminal-IsTransient e h (inr (inr same)) = cc

module _ (c : Config) (deps : Dependencies) (claim : Claim) (now : Time) where
  abbrev pub Deferred : Decision → Type 0
  Deferred (defer_claim next) = next ≡ add now c.poll_interval
  Deferred (defer_after cause next) = (next ≡ add now c.poll_interval) × IsTransient cause
  Deferred (give_up cause) = IsTerminal cause ⊎ (deps.renewal_error ≡ some cause)
  Deferred (commit e next) = Unit

  -- A deferral is until the next poll, and after an error only after a transient one; what is given
  -- up has a terminal error or has failed to renew its lease; what is committed was read behind the
  -- checkpoint and evaluated.
  abbrev pub Decided : Decision → Type 0
  Decided (defer_claim next) = next ≡ add now c.poll_interval
  Decided (defer_after cause next) = (next ≡ add now c.poll_interval) × IsTransient cause
  Decided (give_up cause) = IsTerminal cause ⊎ (deps.renewal_error ≡ some cause)
  Decided (commit e next) = Committed c deps claim now e next

  after_error-Deferred :
      (cause : WorkerError) → Deferred (defer_after_error cause (add now c.poll_interval))
  unfolding defer_after_error
  after_error-Deferred cause = elim (Bool-cases (is_terminal cause)) [
    | inl terminal ↦ rw terminal (inl (is_terminal-IsTerminal cause terminal))
    | inr transient ↦ rw transient (refl, not_terminal-IsTransient cause transient)
  ]

  renewal-Deferred :
      (r : Option WorkerError) (e : Evaluation)
      → deps.renewal_error ≡ r
      → Deferred (commit_unless_renewal_failed c deps claim now r e)
  renewal-Deferred none e h = tt
  renewal-Deferred (some cause) e h = inr h

  committed-Deferred :
      (r : Result InvalidInput Evaluation) → Deferred (committed c deps claim now r)
  committed-Deferred (err e) = after_error-Deferred (invalid_batch e)
  committed-Deferred (ok e) = renewal-Deferred deps.renewal_error e refl

  suffix-Deferred :
      (checkpoint : Option ReplayCheckpoint) (os : List Observation)
      → Deferred (evaluate_suffix c deps claim now checkpoint os)
  unfolding evaluate_suffix
  suffix-Deferred checkpoint [] = refl
  suffix-Deferred checkpoint (o ∷ os) = committed-Deferred _

  read-Deferred :
      (checkpoint : Option ReplayCheckpoint) (r : Result WorkerError ReadResult)
      → Deferred (evaluate_read c deps claim now checkpoint r)
  read-Deferred checkpoint (err cause) = after_error-Deferred cause
  read-Deferred checkpoint (ok r) =
      suffix-Deferred checkpoint (evaluable_suffix r.observations claim checkpoint)

  from-Deferred :
      (end : Time) (r : Result WorkerError (Option ReplayCheckpoint))
      → Deferred (evaluate_from c deps claim now end r)
  from-Deferred end (err cause) = after_error-Deferred cause
  from-Deferred end (ok checkpoint) = elim (Bool-cases (mismatched claim checkpoint)) [
    | inl apart ↦ rw apart (after_error-Deferred checkpoint_mismatch)
    | inr together ↦
        rw together
          (read-Deferred checkpoint (deps.read_complete (read_start c claim checkpoint) end))
  ]

  process_claim-Deferred : Deferred (process_claim c deps claim now)
  unfolding process_claim
  process_claim-Deferred =
      let end = read_end c claim now in
      elim (Bool-cases (after end claim.authority_from)) [
        | inl begun ↦ rw begun (from-Deferred end (deps.get_replay_checkpoint end))
        | inr closed ↦ rw closed refl
      ]

  decided : (d : Decision) → process_claim c deps claim now ≡ d → Deferred d → Decided d
  decided (defer_claim next) h k = k
  decided (defer_after cause next) h k = k
  decided (give_up cause) h k = k
  decided (commit e next) h k = process_claim-Committed c deps claim now e next h

  pub process_claim-Decided : Decided (process_claim c deps claim now)
  process_claim-Decided = decided (process_claim c deps claim now) refl process_claim-Deferred
