-- ===== src/Worker/Fenced.antt =====
-- What a claim commits: `processClaim` of internal/worker/evaluation.go with the evaluator.
use mathlib.Core.Path.{subst}
use aero_arc_conformance.Prelude.{
  ◌≤◌, ◌<◌, ◌≡◌, sym, ap, ◌∙◌, inl, inr, true, false, ◌==◌, nat_eq, string_eq, Option, none, some,
  List, [], ◌∷◌, Result, ok, All, keep_if, Bool-cases, arith,
}
use aero_arc_conformance.Domain.Float.{Arithmetic}
use aero_arc_conformance.Domain.Time.{Time, add}
use aero_arc_conformance.Domain.Types.{ViolationType}
use aero_arc_conformance.Domain.Assignment.{Observation}
use aero_arc_conformance.Domain.Incident.{Evaluation}
use aero_arc_conformance.Evaluator.Policy.{Policy}
use aero_arc_conformance.Evaluator.Batch.{evaluate_batch, observation_before}
use aero_arc_conformance.Evaluator.Replay.{last_of}
use aero_arc_conformance.Evaluator.Causal.{SoundState, SoundTransition, empty-Sound}
use aero_arc_conformance.Evaluator.Window.{HasCursor, evaluate_batch_window, Sound-mono}
use aero_arc_conformance.Worker.Claim.{Config, Claim, ReplayCheckpoint, WorkerError}
use aero_arc_conformance.Worker.Suffix.{
  is_evaluable, is_new, in_authority, after_checkpoint, insert, sort_stable, evaluable_suffix,
}
use aero_arc_conformance.Worker.Committed.{Committed, process_claim-Committed}
use aero_arc_conformance.Worker.Process.{
  commit, Dependencies, process_claim, read_end, previous_state, evaluation_assignment,
}

abbrev IsEvaluable : Claim → Option ReplayCheckpoint → Observation → Type 0
IsEvaluable claim c o = is_evaluable claim c o ≡ true

same_checkpoint :
    (r : Result WorkerError (Option ReplayCheckpoint)) (a b : Option ReplayCheckpoint)
    → r ≡ ok a
    → r ≡ ok b
    → a ≡ b
same_checkpoint r a b h k = cc

module _ (claim : Claim) (c : Option ReplayCheckpoint) where
  insert-IsEvaluable :
      (o : Observation) (xs : List Observation)
      → IsEvaluable claim c o
      → All (IsEvaluable claim c) xs
      → All (IsEvaluable claim c) (insert o xs)
  unfolding insert
  insert-IsEvaluable o [] h k = (h, tt)
  insert-IsEvaluable o (x ∷ xs) h k = elim (Bool-cases (observation_before x o)) [
    | inl less ↦ rw less (k.0, insert-IsEvaluable o xs h k.1)
    | inr not_less ↦ rw not_less (h, k)
  ]

  sort_stable-IsEvaluable :
      (xs : List Observation)
      → All (IsEvaluable claim c) xs
      → All (IsEvaluable claim c) (sort_stable xs)
  unfolding sort_stable
  sort_stable-IsEvaluable [] k = tt
  sort_stable-IsEvaluable (x ∷ xs) k =
      insert-IsEvaluable x (sort_stable xs) k.0 (sort_stable-IsEvaluable xs k.1)

  kept-IsEvaluable :
      (xs : List Observation) → All (IsEvaluable claim c) (keep_if (is_evaluable claim c) xs)
  kept-IsEvaluable [] = tt
  kept-IsEvaluable (x ∷ xs) = elim (Bool-cases (is_evaluable claim c x)) [
    | inl keeps ↦ rw keeps (keeps, kept-IsEvaluable xs)
    | inr drops ↦ rw drops (kept-IsEvaluable xs)
  ]

  suffix-IsEvaluable :
      (xs : List Observation) → All (IsEvaluable claim c) (evaluable_suffix xs claim c)
  unfolding evaluable_suffix
  suffix-IsEvaluable xs = sort_stable-IsEvaluable _ (kept-IsEvaluable xs)

  last-IsEvaluable :
      (o : Observation) (os : List Observation)
      → All (IsEvaluable claim c) (o ∷ os)
      → IsEvaluable claim c (last_of o os)
  last-IsEvaluable o [] h = h.0
  last-IsEvaluable o (x ∷ xs) h = last-IsEvaluable x xs h.1

authority_of :
    (claim : Claim) (c : Option ReplayCheckpoint) (o : Observation)
    → IsEvaluable claim c o
    → (claim.authority_from ≤ o.observed_at)
      × (o.observed_at < claim.authority_until)
      × (is_new c o ≡ true)
unfolding is_evaluable in_authority
authority_of claim c o h = ground arith

after_checkpoint-le :
    (o : Observation) (c : ReplayCheckpoint)
    → after_checkpoint o c ≡ true
    → c.state_through_at ≤ o.observed_at
unfolding after_checkpoint
after_checkpoint-le o c h = ground arith

-- The incident state of a checkpoint lies between the claim's authority start and the checkpoint.
abbrev pub SoundCheckpoint : Claim → Option ReplayCheckpoint → Type 0
SoundCheckpoint claim none = Unit
SoundCheckpoint claim (some c) = SoundState claim.authority_from c.state_through_at c.state

previous-SoundState :
    (claim : Claim) (c : Option ReplayCheckpoint) (o : Observation)
    → is_new c o ≡ true
    → SoundCheckpoint claim c
    → SoundState claim.authority_from o.observed_at (previous_state c)
previous-SoundState claim none o new s ViolationType.lateral = empty-Sound _ _
previous-SoundState claim none o new s ViolationType.vertical = empty-Sound _ _
previous-SoundState claim none o new s ViolationType.temporal = empty-Sound _ _
previous-SoundState claim none o new s ViolationType.telemetry_loss = empty-Sound _ _
previous-SoundState claim (some c) o new s v = Sound-mono _ (after_checkpoint-le o c new) (s v)

-- What a commit may assume of its evaluation: it lies in the claim's authority interval, and its
-- watermark is that of an observation of the claim that comes after the checkpoint.
pub record Fenced (claim : Claim) (checkpoint : Option ReplayCheckpoint) (e : Evaluation)
    : Type 0 where
  pub causal_start : claim.authority_from ≤ e.causal_from
  pub causal_end : e.causal_from ≤ e.observed_at
  pub inside : e.observed_at < claim.authority_until
  pub sound_state : SoundState claim.authority_from e.observed_at e.state
  pub sound_transitions : All (SoundTransition claim.authority_from e.observed_at) e.transitions
  pub last : Observation
  pub watermark : HasCursor last e
  pub last_evaluable : is_evaluable claim checkpoint last ≡ true
  pub frame_given : (e.frame_id == "") ≡ false
  pub wal_given : (e.wal_id == "") ≡ false

module _ (ar : Arithmetic) (policy : Policy) (c : Config) (deps : Dependencies)
    (claim : Claim) where
  Committed-Fenced :
      (now : Time) (checkpoint : Option ReplayCheckpoint) (e : Evaluation) (next : Time)
      → (k : Committed c deps claim now e next) → k.checkpoint ≡ checkpoint
      → SoundCheckpoint claim checkpoint
      → evaluate_batch ar policy
          (evaluation_assignment claim)
          (k.first ∷ k.others)
          (previous_state k.checkpoint)
        ≡ ok e
      → Fenced claim checkpoint e
  Committed-Fenced now checkpoint e next k same sound evaluated =
      let all =
        subst (All (IsEvaluable claim checkpoint))
          (ap (evaluable_suffix _ claim) (sym same) ∙ k.suffix)
          (suffix-IsEvaluable claim checkpoint k.read.observations) in
      let (from, _, new) = authority_of claim checkpoint k.first all.0 in
      let (bounded, low, high) =
        evaluate_batch_window ar policy (evaluation_assignment claim) claim.authority_from k.first
          k.others (previous_state k.checkpoint) e evaluated from
          (rw same (previous-SoundState claim checkpoint k.first new sound)) in
      let final = last-IsEvaluable claim checkpoint k.first k.others all in
      let until = (authority_of claim checkpoint _ final).1 in
      let time = bounded.cursor.same_time in
      record {
        causal_start = low;
        causal_end = high;
        inside = omega arith;
        sound_state = bounded.sound_state;
        sound_transitions = bounded.sound_transitions;
        last = last_of k.first k.others;
        watermark = bounded.cursor;
        last_evaluable = final;
        frame_given = bounded.frame_given;
        wal_given = bounded.wal_given;
      }

  -- With the engine as the worker's evaluator, and where the incident state of the checkpoint that
  -- the store returns lies between the authority start and that checkpoint, an evaluation that a
  -- claim commits is fenced: its causal start, its watermark, its state and its transitions lie in
  -- the half-open authority interval, and its watermark is that of an attributed observation inside
  -- the authority and after the checkpoint. The lease renewal had not failed, and the next
  -- evaluation is due after the poll interval.
  pub process_claim-Fenced :
      (now : Time) (checkpoint : Option ReplayCheckpoint) (e : Evaluation) (next : Time)
      → deps.evaluate_batch ≡ evaluate_batch ar policy
      → deps.get_replay_checkpoint (read_end c claim now) ≡ ok checkpoint
      → SoundCheckpoint claim checkpoint
      → process_claim c deps claim now ≡ commit e next
      → Fenced claim checkpoint e × (deps.renewal_error ≡ none) × (next ≡ add now c.poll_interval)
  process_claim-Fenced now checkpoint e next engine found sound h =
      let k = process_claim-Committed c deps claim now e next h in
      let same = same_checkpoint _ k.checkpoint checkpoint k.found found in
      (
        Committed-Fenced now checkpoint e next k same sound (
            sym (
              ap
                (λ f.
                  f (evaluation_assignment claim) (k.first ∷ k.others)
                    (previous_state k.checkpoint))
                engine)
            ∙ k.evaluated),
        k.renewed,
        k.scheduled,
      )
