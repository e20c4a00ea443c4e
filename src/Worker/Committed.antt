-- ===== src/Worker/Committed.antt =====
-- How a claim comes to a commit: `processClaim` of internal/worker/evaluation.go.
use aero_arc_conformance.Prelude.{
  ◌≡◌, ◌≢◌, refl, inl, inr, false, nat_eq, string_eq, Option, none, List, [], ◌∷◌, Result, ok, err,
  Bool-cases, Option-cases, arith,
}
use aero_arc_conformance.Domain.Time.{Time, after, add}
use aero_arc_conformance.Domain.Assignment.{Observation}
use aero_arc_conformance.Domain.Incident.{Evaluation}
use aero_arc_conformance.Evaluator.Policy.{InvalidInput}
use aero_arc_conformance.Worker.Claim.{Config, Claim, ReplayCheckpoint, WorkerError}
use aero_arc_conformance.Worker.Suffix.{evaluable_suffix}
use aero_arc_conformance.Worker.Split.{ReadResult}
use aero_arc_conformance.Worker.Process.{
  commit, Dependencies, process_claim, evaluate_suffix, defer_after_error, committed, evaluate_read,
  evaluate_from, read_end, read_start, mismatched, previous_state, evaluation_assignment,
}

module _ (c : Config) (deps : Dependencies) (claim : Claim) (now : Time) where
  -- How a claim came to a commit.
  pub record Committed (e : Evaluation) (next : Time) : Type 0 where
    pub checkpoint : Option ReplayCheckpoint
    pub read : ReadResult
    pub first : Observation
    pub others : List Observation
    pub found : deps.get_replay_checkpoint (read_end c claim now) ≡ ok checkpoint
    pub matching : mismatched claim checkpoint ≡ false
    pub read_ok :
        deps.read_complete (read_start c claim checkpoint) (read_end c claim now) ≡ ok read
    pub suffix : evaluable_suffix read.observations claim checkpoint ≡ first ∷ others
    pub evaluated :
        deps.evaluate_batch
          (evaluation_assignment claim)
          (first ∷ others)
          (previous_state checkpoint)
        ≡ ok e
    pub renewed : deps.renewal_error ≡ none
    pub scheduled : next ≡ add now c.poll_interval

  not_deferred :
      (cause : WorkerError) (t : Time) (e : Evaluation) (next : Time)
      → defer_after_error cause t ≢ commit e next
  unfolding defer_after_error
  not_deferred cause t e next h = ground arith

  committed-eq-commit :
      (r : Result InvalidInput Evaluation) (e : Evaluation) (next : Time)
      → committed c deps claim now r ≡ commit e next
      → (r ≡ ok e) × (deps.renewal_error ≡ none) × (next ≡ add now c.poll_interval)
  committed-eq-commit (err x) e next h = absurd (not_deferred _ _ e next h)
  committed-eq-commit (ok x) e next h = elim (Option-cases deps.renewal_error) [
    | inl no_error ↦ let k = rw no_error at h in (cc, no_error, cc)
    | inr (cause, failed) ↦ cc (rw failed at h)
  ]

  suffix-Committed :
      (checkpoint : Option ReplayCheckpoint) (r : ReadResult) (suffix : List Observation)
      (e : Evaluation) (next : Time)
      → deps.get_replay_checkpoint (read_end c claim now) ≡ ok checkpoint
      → mismatched claim checkpoint ≡ false
      → deps.read_complete (read_start c claim checkpoint) (read_end c claim now) ≡ ok r
      → evaluable_suffix r.observations claim checkpoint ≡ suffix
      → evaluate_suffix c deps claim now checkpoint suffix ≡ commit e next
      → Committed e next
  unfolding evaluate_suffix
  suffix-Committed checkpoint r [] e next found matching read same h = cc
  suffix-Committed checkpoint r (o ∷ os) e next found matching read same h =
      let k = committed-eq-commit _ e next h in
      record {
        checkpoint = checkpoint;
        read = r;
        first = o;
        others = os;
        found = found;
        matching = matching;
        read_ok = read;
        suffix = same;
        evaluated = k.0;
        renewed = k.1;
        scheduled = k.2;
      }

  read-Committed :
      (checkpoint : Option ReplayCheckpoint) (r : Result WorkerError ReadResult) (e : Evaluation)
      (next : Time)
      → deps.get_replay_checkpoint (read_end c claim now) ≡ ok checkpoint
      → mismatched claim checkpoint ≡ false
      → deps.read_complete (read_start c claim checkpoint) (read_end c claim now) ≡ r
      → evaluate_read c deps claim now checkpoint r ≡ commit e next
      → Committed e next
  read-Committed checkpoint (err x) e next found matching read h =
      absurd (not_deferred _ _ e next h)
  read-Committed checkpoint (ok r) e next found matching read h =
      suffix-Committed checkpoint r _ e next found matching read refl h

  from-Committed :
      (found : Result WorkerError (Option ReplayCheckpoint)) (e : Evaluation) (next : Time)
      → deps.get_replay_checkpoint (read_end c claim now) ≡ found
      → evaluate_from c deps claim now (read_end c claim now) found ≡ commit e next
      → Committed e next
  from-Committed (err x) e next found h = absurd (not_deferred _ _ e next h)
  from-Committed (ok checkpoint) e next found h = elim (Bool-cases (mismatched claim checkpoint)) [
    | inl bad ↦ absurd (not_deferred _ _ e next (rw bad at h))
    | inr good ↦ read-Committed checkpoint _ e next found good refl (rw good at h)
  ]

  pub process_claim-Committed :
      (e : Evaluation) (next : Time)
      → process_claim c deps claim now ≡ commit e next
      → Committed e next
  unfolding process_claim
  process_claim-Committed e next h =
      elim (Bool-cases (after (read_end c claim now) claim.authority_from)) [
        | inl settled ↦ from-Committed _ e next refl (rw settled at h)
        | inr shut ↦ cc (rw shut at h)
      ]
