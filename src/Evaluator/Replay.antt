-- ===== src/Evaluator/Replay.antt =====
-- A batch in two parts: `EvaluateBatch` of internal/evaluator/evaluator.go.
use aero_arc_conformance.Prelude.{
  ℕ, ◌≡◌, refl, sym, ap, ◌∙◌, List, [], ◌∷◌, ◌++◌, Result, ok, err, ◌>>=◌, ◌>>◌, fail_if,
}
use mathlib.Core.List.{append_assoc}
use aero_arc_conformance.Domain.Float.{Arithmetic}
use aero_arc_conformance.Domain.Assignment.{Assignment, Observation}
use aero_arc_conformance.Domain.Incident.{EvaluatorState, IncidentTransition, Evaluation}
use aero_arc_conformance.Evaluator.Policy.{Policy, InvalidInput, not_canonically_ordered}
use aero_arc_conformance.Evaluator.Evaluate.{evaluate, earliest_causal_timestamp}
use aero_arc_conformance.Evaluator.Batch.{observation_before, batch_loop, evaluate_batch}

abbrev pub last_of : Observation → List Observation → Observation
last_of o [] = o
last_of o (x ∷ xs) = last_of x xs

bind_assoc {ℓ} :
    {E A B C : Type ℓ} (m : Result E A) (f : A → Result E B) (g : B → Result E C)
    → ((m >>= f) >>= g) ≡ (m >>= λ a. f a >>= g)
bind_assoc (ok a) f g = refl
bind_assoc (err e) f g = refl

bind_cong {ℓ} :
    {E A B : Type ℓ} (m : Result E A) (f g : A → Result E B)
    → ((a : A) → f a ≡ g a)
    → (m >>= f) ≡ (m >>= g)
bind_cong (ok a) f g h = h a
bind_cong (err e) f g h = refl

-- The transitions of an earlier part in front of a result's.
abbrev pub after_transitions : List IncidentTransition → Evaluation → Evaluation
after_transitions ts r = record r { transitions = ts ++ r.transitions }

-- The result with the causal start of the batch.
abbrev with_causal : ℕ → Result InvalidInput Evaluation → Result InvalidInput Evaluation
with_causal causal r = r >>= λ n. ok (record n { causal_from = causal })

module _ (ar : Arithmetic) (policy : Policy) (a : Assignment) where
  loop :
      Observation
      → List IncidentTransition
      → Evaluation
      → List Observation
      → Result InvalidInput Evaluation
  loop = batch_loop ar policy a

  -- The loop only puts transitions behind those it was given.
  loop_prefix :
      (last : Observation) (ts us : List IncidentTransition) (r : Evaluation)
      (os : List Observation)
      → loop last (ts ++ us) r os ≡ (loop last us r os >>= λ m. ok (after_transitions ts m))
  unfolding loop batch_loop
  loop_prefix last ts us r [] = refl
  loop_prefix last ts us r (o ∷ os) =
      let passed = fail_if (observation_before o last) not_canonically_ordered in
      let evaluated = evaluate ar policy o.observed_at a o r.state in
      bind_cong passed _ _ (λ _.
        bind_cong evaluated _ _ (λ next.
          rw (append_assoc ts us next.transitions)
            (loop_prefix o ts (us ++ next.transitions) next os))
        ∙ sym (bind_assoc evaluated _ _))
      ∙ sym (bind_assoc passed _ _)

  loop_split :
      (last : Observation) (ts : List IncidentTransition) (r : Evaluation)
      (xs ys : List Observation)
      → loop last ts r (xs ++ ys)
        ≡ (loop last ts r xs >>= λ m. loop (last_of last xs) m.transitions m ys)
  unfolding loop batch_loop
  loop_split last ts r [] [] = refl
  loop_split last ts r [] (y ∷ ys) = refl
  loop_split last ts r (x ∷ xs) ys =
      let passed = fail_if (observation_before x last) not_canonically_ordered in
      let evaluated = evaluate ar policy x.observed_at a x r.state in
      bind_cong passed _ _ (λ _.
        bind_cong evaluated _ _ (λ next. loop_split x (ts ++ next.transitions) next xs ys)
        ∙ sym (bind_assoc evaluated _ _))
      ∙ sym (bind_assoc passed _ _)

  -- What follows an accepted first part: its order, a batch of its own from the state of the first
  -- part, and the two results joined.
  abbrev pub continue_with :
      Observation → Evaluation → Observation → List Observation → Result InvalidInput Evaluation
  continue_with last first y ys = do
    fail_if (observation_before y last) not_canonically_ordered
    second ← evaluate_batch ar policy a (y ∷ ys) first.state
    ok (record second {
      transitions = first.transitions ++ second.transitions;
      causal_from = first.causal_from;
    })

  continue_loop :
      (last : Observation) (m : Evaluation) (causal : ℕ) (y : Observation) (ys : List Observation)
      → with_causal causal (loop last m.transitions m (y ∷ ys))
        ≡ continue_with last (record m { causal_from = causal }) y ys
  unfolding loop batch_loop evaluate_batch
  continue_loop last m causal y ys =
      bind_assoc (fail_if (observation_before y last) not_canonically_ordered) _ _
      ∙ bind_cong (fail_if (observation_before y last) not_canonically_ordered) _ _ λ _.
        bind_assoc (evaluate ar policy y.observed_at a y m.state) _ _
        ∙ bind_cong (evaluate ar policy y.observed_at a y m.state) _ _ (λ next.
          ap (with_causal causal) (loop_prefix y m.transitions next.transitions next ys)
          ∙ bind_assoc (loop y next.transitions next ys) _ _
          ∙ sym (bind_assoc (loop y next.transitions next ys) _ _))
        ∙ sym (bind_assoc (evaluate ar policy y.observed_at a y m.state) _ _)

  -- A batch may be cut anywhere: evaluating the whole is evaluating the first part, checking that
  -- the second part follows it in the canonical order, and evaluating the second part from the
  -- state that the first one left; errors included, with the transitions of both parts and the
  -- causal start of the first.
  pub evaluate_batch-append :
      (x : Observation) (xs : List Observation) (y : Observation) (ys : List Observation)
      (previous : EvaluatorState)
      → evaluate_batch ar policy a (x ∷ xs ++ y ∷ ys) previous ≡ (
          evaluate_batch ar policy a (x ∷ xs) previous >>= λ first.
          continue_with (last_of x xs) first y ys)
  unfolding evaluate_batch loop
  evaluate_batch-append x xs y ys previous =
      let causal = earliest_causal_timestamp previous x.observed_at in
      let evaluated = evaluate ar policy x.observed_at a x previous in
      bind_cong evaluated _ _ (λ f.
        ap (with_causal causal) (loop_split x f.transitions f xs (y ∷ ys))
        ∙ bind_assoc (loop x f.transitions f xs) _ _
        ∙ bind_cong (loop x f.transitions f xs) _ _
            (λ m. continue_loop (last_of x xs) m causal y ys)
        ∙ sym (bind_assoc (loop x f.transitions f xs) _ _))
      ∙ sym (bind_assoc evaluated _ _)
