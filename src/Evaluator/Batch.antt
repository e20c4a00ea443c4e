-- ===== src/Evaluator/Batch.antt =====
-- `EvaluateBatch` and `observationBefore` of internal/evaluator/evaluator.go.
use aero_arc_conformance.Prelude.{
  Bool, not, ltb, ◌==◌, nat_eq, string_eq, str_lt, if◌then◌else◌, List, [], ◌∷◌, ◌++◌, Result, ok,
  err, ◌>>=◌, ◌>>◌, fail_if,
}
use aero_arc_conformance.Domain.Float.{Arithmetic}
use aero_arc_conformance.Domain.Time.{before}
use aero_arc_conformance.Domain.Assignment.{Assignment, Observation}
use aero_arc_conformance.Domain.Incident.{EvaluatorState, IncidentTransition, Evaluation}
use aero_arc_conformance.Evaluator.Policy.{
  Policy, InvalidInput, empty_batch, not_canonically_ordered,
}
use aero_arc_conformance.Evaluator.Evaluate.{evaluate, earliest_causal_timestamp}

-- The canonical order of observations.
unfoldable pub observation_before : Observation → Observation → Bool
observation_before a b =
    if not (a.observed_at == b.observed_at)
    then before a.observed_at b.observed_at
    else if not (a.agent_id == b.agent_id)
    then str_lt a.agent_id b.agent_id
    else if not (a.wal_id == b.wal_id)
    then str_lt a.wal_id b.wal_id
    else if not (a.wal_sequence == b.wal_sequence)
    then ltb a.wal_sequence b.wal_sequence
    else str_lt a.frame_id b.frame_id

module _ (ar : Arithmetic) (policy : Policy) (assignment : Assignment) where
  -- The loop after the first observation: the observation before, the transitions so far and the
  -- last result, whose state is the next one's previous state.
  unfoldable pub batch_loop :
      Observation
      → List IncidentTransition
      → Evaluation
      → List Observation
      → Result InvalidInput Evaluation
  batch_loop last ts result [] = ok (record result { transitions = ts })
  batch_loop last ts result (o ∷ observations) = do
    fail_if (observation_before o last) not_canonically_ordered
    next ← evaluate ar policy o.observed_at assignment o result.state
    batch_loop o (ts ++ next.transitions) next observations

  unfoldable pub evaluate_batch : List Observation → EvaluatorState → Result InvalidInput Evaluation
  evaluate_batch [] previous = err empty_batch
  evaluate_batch (o ∷ observations) previous = do
    first ← evaluate ar policy o.observed_at assignment o previous
    result ← batch_loop o first.transitions first observations
    ok (record result { causal_from = earliest_causal_timestamp previous o.observed_at })
