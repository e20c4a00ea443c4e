-- ===== src/Evaluator/Accepted.antt =====
-- What an accepted evaluation and an accepted batch consist of: internal/evaluator/evaluator.go.
use aero_arc_conformance.Prelude.{
  ℕ, ◌≡◌, refl, Bool, true, false, List, ◌∷◌, ◌++◌, ok, fail_if, >>=-eq-ok,
}
use aero_arc_conformance.Domain.Float.{Arithmetic}
use aero_arc_conformance.Domain.Assignment.{Assignment, Observation}
use aero_arc_conformance.Domain.Incident.{EvaluatorState, IncidentTransition, Evaluation}
use aero_arc_conformance.Evaluator.Policy.{
  Policy, identity_mismatch, not_canonically_ordered, validate_assignment, identity_differs,
}
use aero_arc_conformance.Evaluator.Evaluate.{evaluate, evaluation_of, earliest_causal_timestamp}
use aero_arc_conformance.Evaluator.Batch.{observation_before, batch_loop, evaluate_batch}

fail_if-eq-ok : {E : Type 0} (b : Bool) (e : E) (u : Unit {0}) → fail_if b e ≡ ok u → b ≡ false
fail_if-eq-ok true e u h = cc
fail_if-eq-ok false e u h = refl

module _ (ar : Arithmetic) (policy : Policy) (a : Assignment) where
  -- The checks that passed, and the result.
  pub record Accepted (o : Observation) (previous : EvaluatorState) (r : Evaluation) : Type 0 where
    pub valid_assignment : validate_assignment a policy ≡ ok tt
    pub same_identity : identity_differs a o ≡ false
    pub result : r ≡ evaluation_of ar policy a o previous

  pub evaluate-Accepted :
      (now : ℕ) (o : Observation) (previous : EvaluatorState) (r : Evaluation)
      → evaluate ar policy now a o previous ≡ ok r
      → Accepted o previous r
  unfolding evaluate
  evaluate-Accepted now o previous r h =
      let (u, valid, h1) = >>=-eq-ok (validate_assignment a policy) _ h in
      let (u2, passed, h2) = >>=-eq-ok (fail_if (identity_differs a o) identity_mismatch) _ h1 in
      record {
        valid_assignment = valid;
        same_identity = fail_if-eq-ok (identity_differs a o) identity_mismatch u2 passed;
        result = cc;
      }

  -- A step of the loop that was accepted.
  pub record Stepped (last : Observation) (ts : List IncidentTransition) (r : Evaluation)
      (o : Observation) (os : List Observation) (m : Evaluation) : Type 0 where
    pub next : Evaluation
    pub in_order : observation_before o last ≡ false
    pub accepted : Accepted o r.state next
    pub rest : batch_loop ar policy a o (ts ++ next.transitions) next os ≡ ok m

  pub batch_loop-Stepped :
      (last : Observation) (ts : List IncidentTransition) (r : Evaluation) (o : Observation)
      (os : List Observation) (m : Evaluation)
      → batch_loop ar policy a last ts r (o ∷ os) ≡ ok m
      → Stepped last ts r o os m
  unfolding batch_loop
  batch_loop-Stepped last ts r o os m h =
      let (u, passed, h1) =
        >>=-eq-ok (fail_if (observation_before o last) not_canonically_ordered) _ h in
      let (next, evaluated, h2) = >>=-eq-ok (evaluate ar policy o.observed_at a o r.state) _ h1 in
      record {
        next = next;
        in_order = fail_if-eq-ok (observation_before o last) not_canonically_ordered u passed;
        accepted = evaluate-Accepted o.observed_at o r.state next evaluated;
        rest = h2;
      }

  -- A batch that was accepted: its first evaluation, the loop, and the causal start.
  pub record Started (o : Observation) (os : List Observation) (previous : EvaluatorState)
      (r : Evaluation) : Type 0 where
    pub first : Evaluation
    pub last : Evaluation
    pub accepted : Accepted o previous first
    pub loop : batch_loop ar policy a o first.transitions first os ≡ ok last
    pub result : r ≡ record last { causal_from = earliest_causal_timestamp previous o.observed_at }

  pub evaluate_batch-Started :
      (o : Observation) (os : List Observation) (previous : EvaluatorState) (r : Evaluation)
      → evaluate_batch ar policy a (o ∷ os) previous ≡ ok r
      → Started o os previous r
  unfolding evaluate_batch
  evaluate_batch-Started o os previous r h =
      let (first, evaluated, h1) = >>=-eq-ok (evaluate ar policy o.observed_at a o previous) _ h in
      let (last, looped, h2) =
        >>=-eq-ok (batch_loop ar policy a o first.transitions first os) _ h1 in
      record {
        first = first;
        last = last;
        accepted = evaluate-Accepted o.observed_at o previous first evaluated;
        loop = looped;
        result = cc;
      }
