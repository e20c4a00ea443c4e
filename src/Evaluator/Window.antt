-- ===== src/Evaluator/Window.antt =====
-- The watermark, the timestamps and the identities of a batch's result: `EvaluateBatch` of
-- internal/evaluator/evaluator.go.
use mathlib.Core.List.{foldl}
use mathlib.Core.Path.{subst}
use aero_arc_conformance.Prelude.{
  ℕ, ◌≤◌, ◌≡◌, refl, false, Option, none, some, List, [], ◌∷◌, ◌++◌, ◌==◌, string_eq, nat_eq, All,
  All-append, arith, ok,
}
use aero_arc_conformance.Domain.Float.{Arithmetic}
use aero_arc_conformance.Domain.Types.{ViolationType}
use aero_arc_conformance.Domain.Assignment.{Assignment, Observation}
use aero_arc_conformance.Domain.Incident.{
  IncidentState, EvaluatorState, IncidentTransition, Evaluation, or_empty, entries, entry,
}
use aero_arc_conformance.Evaluator.Policy.{Policy, identity_differs}
use aero_arc_conformance.Evaluator.Evaluate.{causal_step, earliest_causal_timestamp, evaluation_of}
use aero_arc_conformance.Evaluator.Batch.{observation_before, batch_loop, evaluate_batch}
use aero_arc_conformance.Evaluator.Accepted.{Accepted, batch_loop-Stepped, evaluate_batch-Started}
use aero_arc_conformance.Evaluator.Replay.{last_of}
use aero_arc_conformance.Evaluator.Causal.{
  Sound, SoundTransition, SoundObservation, SoundState, next_state-Sound,
}

abbrev Entry : Type 0
Entry = ViolationType × IncidentState

causal_step-le : (t : ℕ) (e : Entry) → causal_step t e ≤ t
unfolding causal_step
causal_step-le t e = ground arith

causal-le : (es : List Entry) (t : ℕ) → foldl causal_step t es ≤ t
causal-le [] t = omega arith
causal-le (e ∷ es) t = omega (arith, causal_step-le t e, causal-le es (causal_step t e))

module _ (lo hi : ℕ) where
  abbrev SoundEntry : Entry → Type 0
  SoundEntry e = Sound lo hi e.1

  causal_step-ge : (t : ℕ) (e : Entry) → SoundEntry e → lo ≤ t → lo ≤ causal_step t e
  unfolding causal_step
  causal_step-ge t e h k = ground arith

  causal-ge : (es : List Entry) (t : ℕ) → All SoundEntry es → lo ≤ t → lo ≤ foldl causal_step t es
  causal-ge [] t h k = k
  causal-ge (e ∷ es) t h k = causal-ge es (causal_step t e) h.1 (causal_step-ge t e h.0 k)

  entry-Sound :
      (v : ViolationType) (i : Option IncidentState)
      → Sound lo hi (or_empty i)
      → All SoundEntry (entry v i)
  entry-Sound v none h = tt
  entry-Sound v (some i) h = (h, tt)

  entries-Sound : (s : EvaluatorState) → SoundState lo hi s → All SoundEntry (entries s)
  entries-Sound s h =
      All-append SoundEntry (entry ViolationType.lateral s.lateral) _
        (entry-Sound _ s.lateral (h ViolationType.lateral))
        (All-append SoundEntry (entry ViolationType.vertical s.vertical) _
          (entry-Sound _ s.vertical (h ViolationType.vertical))
          (All-append SoundEntry (entry ViolationType.temporal s.temporal) _
            (entry-Sound _ s.temporal (h ViolationType.temporal))
            (entry-Sound _ s.telemetry_loss (h ViolationType.telemetry_loss))))

-- The earliest causal time lies between the bound of the retained state and the first observation.
earliest_bounds :
    (lo hi : ℕ) (s : EvaluatorState) (t : ℕ)
    → SoundState lo hi s
    → lo ≤ t
    → (lo ≤ earliest_causal_timestamp s t) × (earliest_causal_timestamp s t ≤ t)
unfolding earliest_causal_timestamp
earliest_bounds lo hi s t h k =
    (causal-ge lo hi (entries s) t (entries-Sound lo hi s h) k, causal-le (entries s) t)

pub Sound-mono : {lo hi hi' : ℕ} (s : IncidentState) → hi ≤ hi' → Sound lo hi s → Sound lo hi' s
Sound-mono s k h = record {
  suspected_in = ground arith;
  opened_in = ground arith;
  observed_in = ground arith;
  named = h.named;
}

SoundTransition-mono :
    (lo hi hi' : ℕ) (ts : List IncidentTransition)
    → hi ≤ hi'
    → All (SoundTransition lo hi) ts
    → All (SoundTransition lo hi') ts
SoundTransition-mono lo hi hi' [] k h = tt
SoundTransition-mono lo hi hi' (t ∷ ts) k h = (
  record {
    at_least = h.0.at_least;
    at_most = omega arith;
    frame_named = h.0.frame_named;
    opening_named = h.0.opening_named;
    wal_named = h.0.wal_named;
  },
  SoundTransition-mono lo hi hi' ts k h.1,
)

in_order-le : (x y : Observation) → observation_before y x ≡ false → x.observed_at ≤ y.observed_at
unfolding observation_before
in_order-le x y h = ground arith

accepted-SoundObservation :
    (a : Assignment) (o : Observation) (lo : ℕ)
    → identity_differs a o ≡ false
    → lo ≤ o.observed_at
    → SoundObservation lo o.observed_at o
unfolding identity_differs
accepted-SoundObservation a o lo h k = ground arith

-- The watermark of a result is the observation's.
pub record HasCursor (o : Observation) (r : Evaluation) : Type 0 where
  pub same_time : r.observed_at ≡ o.observed_at
  pub same_frame : r.frame_id ≡ o.frame_id
  pub same_wal : r.wal_id ≡ o.wal_id
  pub same_sequence : r.wal_sequence ≡ o.wal_sequence

-- A result whose state and transitions lie between `lo` and its watermark.
pub record SoundResult (lo : ℕ) (o : Observation) (r : Evaluation) : Type 0 where
  pub cursor : HasCursor o r
  pub sound_state : SoundState lo r.observed_at r.state
  pub sound_transitions : All (SoundTransition lo r.observed_at) r.transitions
  pub frame_given : (r.frame_id == "") ≡ false
  pub wal_given : (r.wal_id == "") ≡ false

module _ (ar : Arithmetic) (policy : Policy) (a : Assignment) (lo : ℕ) where
  evaluation_of-Sound :
      (o : Observation) (previous : EvaluatorState) (ts : List IncidentTransition)
      → identity_differs a o ≡ false
      → lo ≤ o.observed_at
      → SoundState lo o.observed_at previous
      → All (SoundTransition lo o.observed_at) ts
      → SoundResult lo o (record (evaluation_of ar policy a o previous) {
        transitions = ts ++ (evaluation_of ar policy a o previous).transitions;
      })
  unfolding evaluation_of
  evaluation_of-Sound o previous ts same k h hs =
      let seen = accepted-SoundObservation a o lo same k in
      let (state, new) = next_state-Sound ar policy a lo o.observed_at o previous seen h in
      record {
        cursor = record {
          same_time = refl;
          same_frame = refl;
          same_wal = refl;
          same_sequence = refl;
        };
        sound_state = state;
        sound_transitions = All-append (SoundTransition lo o.observed_at) ts _ hs new;
        frame_given = seen.has_frame;
        wal_given = seen.has_wal;
      }

  -- The step from one result to the next, with the transitions so far.
  next-Sound :
      (last o : Observation) (ts : List IncidentTransition) (r next : Evaluation)
      → observation_before o last ≡ false
      → Accepted ar policy a o r.state next
      → lo ≤ last.observed_at
      → SoundResult lo last (record r { transitions = ts })
      → SoundResult lo o (record next { transitions = ts ++ next.transitions })
  next-Sound last o ts r next order accepted k s =
      let later = in_order-le last o order in
      let same = s.cursor.same_time in
      rw accepted.result (
        evaluation_of-Sound o r.state ts accepted.same_identity (omega arith)
          (λ v. Sound-mono _ (omega arith) (s.sound_state v))
          (SoundTransition-mono lo r.observed_at o.observed_at ts (omega arith)
            s.sound_transitions))

  loop-Sound :
      (last : Observation) (ts : List IncidentTransition) (r : Evaluation) (os : List Observation)
      (m : Evaluation)
      → lo ≤ last.observed_at
      → SoundResult lo last (record r { transitions = ts })
      → batch_loop ar policy a last ts r os ≡ ok m
      → SoundResult lo (last_of last os) m
  unfolding batch_loop
  loop-Sound last ts r [] m k s h = subst (SoundResult lo last) (cc) s
  loop-Sound last ts r (o ∷ os) m k s h =
      let st = batch_loop-Stepped ar policy a last ts r o os m h in
      loop-Sound o (ts ++ st.next.transitions) st.next os m
        (omega (arith, in_order-le last o st.in_order))
        (next-Sound last o ts r st.next st.in_order st.accepted k s) st.rest

  loop-le :
      (last : Observation) (ts : List IncidentTransition) (r : Evaluation) (os : List Observation)
      (m : Evaluation)
      → batch_loop ar policy a last ts r os ≡ ok m
      → last.observed_at ≤ (last_of last os).observed_at
  loop-le last ts r [] m h = omega arith
  loop-le last ts r (o ∷ os) m h =
      let st = batch_loop-Stepped ar policy a last ts r o os m h in
      omega (
        arith,
        in_order-le last o st.in_order,
        loop-le o (ts ++ st.next.transitions) st.next os m st.rest,
      )

  with_causal-Sound :
      (last : Observation) (r : Evaluation) (causal : ℕ)
      → SoundResult lo last r
      → SoundResult lo last (record r { causal_from = causal })
  with_causal-Sound last r causal s = record {
    cursor = record {
      same_time = s.cursor.same_time;
      same_frame = s.cursor.same_frame;
      same_wal = s.cursor.same_wal;
      same_sequence = s.cursor.same_sequence;
    };
    sound_state = s.sound_state;
    sound_transitions = s.sound_transitions;
    frame_given = s.frame_given;
    wal_given = s.wal_given;
  }

  -- Where the retained state and the first observation lie at or after `lo`, an accepted batch has
  -- the watermark of its last observation, its causal start lies between `lo` and the watermark, and
  -- so do every transition it emits and every timestamp that its state retains; all its transitions
  -- name their frame, the frame that opened their incident and their WAL.
  pub evaluate_batch_window :
      (o : Observation) (os : List Observation) (previous : EvaluatorState) (r : Evaluation)
      → evaluate_batch ar policy a (o ∷ os) previous ≡ ok r
      → lo ≤ o.observed_at
      → SoundState lo o.observed_at previous
      → SoundResult lo (last_of o os) r × (lo ≤ r.causal_from) × (r.causal_from ≤ r.observed_at)
  unfolding evaluate_batch
  evaluate_batch_window o os previous r h k s =
      let st = evaluate_batch-Started ar policy a o os previous r h in
      let start = evaluation_of-Sound o previous [] st.accepted.same_identity k s tt in
      let sound =
        loop-Sound o st.first.transitions st.first os st.last k (rw st.accepted.result start)
          st.loop in
      let bounds = earliest_bounds lo o.observed_at previous o.observed_at s k in
      let reached = loop-le o st.first.transitions st.first os st.last st.loop in
      let same = sound.cursor.same_time in
      rw st.result (with_causal-Sound (last_of o os) st.last _ sound, bounds.0, omega arith)
