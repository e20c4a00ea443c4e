-- ===== src/Evaluator/Causal.antt =====
-- The timestamps of an incident's state and of an evaluation: `advance`, `Evaluate` and
-- `earliestCausalTimestamp` of internal/evaluator/evaluator.go.
use mathlib.Core.Path.{subst}
use aero_arc_conformance.Prelude.{
  ℕ, ◌≤◌, ◌≡◌, refl, ◌⊎◌, inl, inr, Bool, true, false, ◌||◌, Option, none, some, List, [], ◌∷◌,
  ◌==◌, string_eq, nat_eq, All, All-append, Bool-cases, arith,
}
use aero_arc_conformance.Domain.Float.{Float64, Arithmetic}
use aero_arc_conformance.Domain.Types.{
  ViolationType, IncidentPhase, same_violation, same_violation_iff,
}
use aero_arc_conformance.Domain.Assignment.{Assignment, Observation}
use aero_arc_conformance.Domain.Incident.{
  IncidentState, EvaluatorState, IncidentTransition, lookup, store, or_empty, empty_incident,
  lookup-store_self, lookup-store_ne,
}
use aero_arc_conformance.Evaluator.Policy.{Policy}
use aero_arc_conformance.Evaluator.Advance.{advance, is_phase}
use aero_arc_conformance.Evaluator.Spatial.{Evidence, EvidenceByType, evidence_by_type}
use aero_arc_conformance.Evaluator.Evaluate.{
  Progress, appended, advance_known, advance_stored, advance_all, mark_unknown, signal, next_state,
  is_known, is_clear_or_missing, mark_not_evaluated,
}

-- No time, or one from `lo` up to `hi`.
abbrev pub InWindow : ℕ → ℕ → ℕ → Type 0
InWindow lo hi t = (t ≡ 0) ⊎ ((lo ≤ t) × (t ≤ hi))

abbrev is_open : IncidentPhase → Bool
is_open p = is_phase p IncidentPhase.opened || is_phase p IncidentPhase.recovering

-- The timestamps of an incident lie in the window, and an open one has an opening frame.
pub record Sound (lo hi : ℕ) (s : IncidentState) : Type 0 where
  pub suspected_in : InWindow lo hi s.first_suspected_at
  pub opened_in : InWindow lo hi s.opened_at
  pub observed_in : InWindow lo hi s.last_observed_at
  pub named : is_open s.phase ≡ true → (s.opening_frame_id == "") ≡ false

-- A transition that a commit accepts: its time and its identities.
pub record SoundTransition (lo hi : ℕ) (t : IncidentTransition) : Type 0 where
  pub at_least : lo ≤ t.observed_at
  pub at_most : t.observed_at ≤ hi
  pub frame_named : (t.frame_id == "") ≡ false
  pub opening_named : (t.opening_frame_id == "") ≡ false
  pub wal_named : (t.wal_id == "") ≡ false

-- An observation that was accepted, in the window.
pub record SoundObservation (lo hi : ℕ) (o : Observation) : Type 0 where
  pub after_lo : lo ≤ o.observed_at
  pub until_hi : o.observed_at ≤ hi
  pub has_frame : (o.frame_id == "") ≡ false
  pub has_wal : (o.wal_id == "") ≡ false

abbrev SoundOption : ℕ → ℕ → Option IncidentTransition → Type 0
SoundOption lo hi none = Unit {0}
SoundOption lo hi (some t) = SoundTransition lo hi t

module _ (lo hi : ℕ) where
  advance-Sound :
      (policy : Policy) (v : ViolationType) (s : IncidentState) (b : Bool) (d : Float64)
      (o : Observation)
      → Sound lo hi s
      → SoundObservation lo hi o
      → Sound lo hi (advance policy v s b d o).0
  unfolding advance
  advance-Sound policy v s b d o h k = ground arith

  advance-SoundOption :
      (policy : Policy) (v : ViolationType) (s : IncidentState) (b : Bool) (d : Float64)
      (o : Observation)
      → Sound lo hi s
      → SoundObservation lo hi o
      → SoundOption lo hi (advance policy v s b d o).1
  unfolding advance
  advance-SoundOption policy v s b d o h k = ground arith

  pub empty-Sound : Sound lo hi empty_incident
  empty-Sound = record {
    suspected_in = inl refl;
    opened_in = inl refl;
    observed_in = inl refl;
    named = λ h. cc;
  }

  abbrev pub SoundState : EvaluatorState → Type 0
  SoundState s = (v : ViolationType) → Sound lo hi (or_empty (lookup s v))

  abbrev SoundProgress : Progress → Type 0
  SoundProgress (s, ts) = SoundState s × All (SoundTransition lo hi) ts

  appended-Sound :
      (ts : List IncidentTransition) (t : Option IncidentTransition)
      → All (SoundTransition lo hi) ts
      → SoundOption lo hi t
      → All (SoundTransition lo hi) (appended ts t)
  appended-Sound ts none h k = h
  appended-Sound ts (some t) h k = All-append (SoundTransition lo hi) ts (t ∷ []) h (k, tt)

  store-Sound :
      (s : EvaluatorState) (v : ViolationType) (i : IncidentState)
      → SoundState s
      → Sound lo hi i
      → SoundState (store s v (some i))
  store-Sound s v i h k w = elim (Bool-cases (same_violation v w)) [
    | inl e ↦
        subst (λ x. Sound lo hi (or_empty (lookup (store s v (some i)) x)))
          ((same_violation_iff v w).0 e) (rw (lookup-store_self s v (some i)) k)
    | inr e ↦ rw (lookup-store_ne s v w (some i) (λ p. cc ((same_violation_iff v w).1 p))) (h w)
  ]

  advance_known-Sound :
      (policy : Policy) (o : Observation) (v : ViolationType) (e : Option Evidence) (p : Progress)
      → SoundObservation lo hi o
      → SoundProgress p
      → SoundProgress (advance_known policy o v e p)
  advance_known-Sound policy o v none p k h = h
  advance_known-Sound policy o v (some e) (s, ts) k h = elim (Bool-cases e.known) [
    | inr no_evidence ↦ rw no_evidence h
    | inl evidence ↦
        let i = or_empty (lookup s v) in
        rw evidence (
          unfold advance_stored in
          (
            store-Sound s v _ h.0 (advance-Sound policy v i e.breached e.deviation o (h.0 v) k),
            appended-Sound ts (advance policy v i e.breached e.deviation o).1 h.1
                (advance-SoundOption policy v i e.breached e.deviation o (h.0 v) k),
          ))
  ]

  deleted-Sound :
      (s : EvaluatorState) (v w : ViolationType)
      → SoundState s
      → Sound lo hi (or_empty (lookup (store s v none) w))
  deleted-Sound s v w h = elim (Bool-cases (same_violation v w)) [
    | inl e ↦
        subst (λ x. Sound lo hi (or_empty (lookup (store s v none) x)))
          ((same_violation_iff v w).0 e) (rw (lookup-store_self s v none) empty-Sound)
    | inr e ↦ rw (lookup-store_ne s v w none (λ p. cc ((same_violation_iff v w).1 p))) (h w)
  ]

  mark_not_evaluated-Sound :
      (s : EvaluatorState) (v w : ViolationType)
      → SoundState s
      → Sound lo hi (or_empty (lookup (mark_not_evaluated s v) w))
  unfolding mark_not_evaluated
  mark_not_evaluated-Sound s v w h = elim (Bool-cases (is_clear_or_missing (lookup s v))) [
    | inl clear ↦ rw clear (deleted-Sound s v w h)
    | inr not_clear ↦ rw not_clear (h w)
  ]

  mark_unknown-Sound :
      (e : EvidenceByType) (s : EvaluatorState) (v : ViolationType)
      → SoundState s
      → SoundState (mark_unknown e s v)
  unfolding mark_unknown
  mark_unknown-Sound e s v h w = elim (Bool-cases (is_known (signal e v))) [
    | inl known ↦ rw known (h w)
    | inr unknown ↦ rw unknown (mark_not_evaluated-Sound s v w h)
  ]

module _ (ar : Arithmetic) (policy : Policy) (a : Assignment) (lo hi : ℕ) where
  pub next_state-Sound :
      (o : Observation) (s : EvaluatorState)
      → SoundObservation lo hi o
      → SoundState lo hi s
      → SoundState lo hi (next_state ar policy a o s).0
        × All (SoundTransition lo hi) (next_state ar policy a o s).1
  unfolding next_state advance_all
  next_state-Sound o s k h =
      let e = evidence_by_type ar policy a o in
      let s1 = mark_unknown e s ViolationType.lateral in
      let s2 = mark_unknown e s1 ViolationType.vertical in
      let h2 =
        mark_unknown-Sound lo hi e s1 ViolationType.vertical
          (mark_unknown-Sound lo hi e s ViolationType.lateral h) in
      let p1 = advance_known policy o ViolationType.lateral e.lateral (s2, []) in
      let p2 = advance_known policy o ViolationType.vertical e.vertical p1 in
      advance_known-Sound lo hi policy o ViolationType.temporal e.temporal p2 k (
        advance_known-Sound lo hi policy o ViolationType.vertical e.vertical p1 k
          (advance_known-Sound lo hi policy o ViolationType.lateral e.lateral (s2, []) k (h2, tt)))
