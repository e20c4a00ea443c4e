-- ===== src/Evaluator/NotEvaluated.antt =====
-- A sample without evidence for a violation: `markNotEvaluated` and the loop over the violations in
-- `Evaluate` of internal/evaluator/evaluator.go.
use aero_arc_conformance.Prelude.{
  ◌≡◌, refl, ap, ◌∙◌, inl, inr, true, false, Option, none, some, List, [], ◌∷◌, if◌then◌else◌,
  Bool-cases, arith, keep_if-append, String, not, is_empty, any_of, ◌||◌,
}
use mathlib.Core.List.{append-nil}
use aero_arc_conformance.Domain.Float.{Arithmetic}
use aero_arc_conformance.Domain.Types.{ViolationType, same_violation}
use aero_arc_conformance.Domain.Assignment.{Volume, Assignment, Observation}
use aero_arc_conformance.Domain.Incident.{
  IncidentState, EvaluatorState, IncidentTransition, lookup, store, or_empty, lookup-store_self,
}
use aero_arc_conformance.Evaluator.Policy.{Policy}
use aero_arc_conformance.Evaluator.Advance.{advance}
use aero_arc_conformance.Evaluator.Spatial.{
  Evidence, EvidenceByType, evidence_by_type, spatial_volumes, spatial_evidence, Scan, no_scan,
  scan_volume, scan_volumes, scan_evidence, is_comparable,
}
use aero_arc_conformance.Evaluator.Evaluate.{
  Progress, appended, advance_known, advance_stored, advance_all, mark_unknown, signal, next_state,
  is_known, is_clear_or_missing,
}
use aero_arc_conformance.Evaluator.Occurrences.{of_violation, advance-Keeps, Keeps}

-- A violation that is handled leaves the others as they were.
abbrev Untouched : ViolationType → Progress → Progress → Type 0
Untouched w p q = (lookup q.0 w ≡ lookup p.0 w) × (of_violation w q.1 ≡ of_violation w p.1)

of_violation-appended :
    (v w : ViolationType) (o : Option String) (ts : List IncidentTransition)
    (r : IncidentState × Option IncidentTransition)
    → Keeps v o r
    → same_violation v w ≡ false
    → of_violation w (appended ts r.1) ≡ of_violation w ts
of_violation-appended v w o ts (i, none) k h = refl
of_violation-appended v w o ts (i, some t) k h =
    rw (keep_if-append (λ x. same_violation x.violation w) ts (t ∷ []))
      (ground (arith, append-nil (of_violation w ts)))

lookup_stored_other :
    (s : EvaluatorState) (v w : ViolationType) (i : Option IncidentState)
    → same_violation v w ≡ false
    → lookup (store s v i) w ≡ lookup s w
lookup_stored_other s ViolationType.lateral w i h = ground arith
lookup_stored_other s _ w i h = ground arith

advance_known-Untouched :
    (policy : Policy) (obs : Observation) (v w : ViolationType) (e : Option Evidence) (p : Progress)
    → same_violation v w ≡ false
    → Untouched w p (advance_known policy obs v e p)
advance_known-Untouched policy obs v w none p h = (refl, refl)
advance_known-Untouched policy obs v w (some e) (s, ts) h = elim (Bool-cases e.known) [
  | inr no_evidence ↦ rw no_evidence (refl, refl)
  | inl evidence ↦ rw evidence (
      unfold advance_stored in
      (
        lookup_stored_other s v w _ h,
        of_violation-appended v w _ ts
            (advance policy v (or_empty (lookup s v)) e.breached e.deviation obs)
            (advance-Keeps policy v (or_empty (lookup s v)) e.breached e.deviation obs) h,
      ))
]

advance_known-unknown :
    (policy : Policy) (obs : Observation) (v : ViolationType) (e : Option Evidence) (p : Progress)
    → is_known e ≡ false
    → advance_known policy obs v e p ≡ p
advance_known-unknown policy obs v none p h = refl
advance_known-unknown policy obs v (some e) p h = rw h

mark_unknown-other :
    (e : EvidenceByType) (s : EvaluatorState) (v w : ViolationType)
    → same_violation v w ≡ false
    → lookup (mark_unknown e s v) w ≡ lookup s w
unfolding mark_unknown
mark_unknown-other e s v w h = ground (arith, lookup_stored_other s v w none)

-- What is left of an incident that was not evaluated.
abbrev pub kept_unless_clear : Option IncidentState → Option IncidentState
kept_unless_clear i = if is_clear_or_missing i then none else i

mark_unknown-own :
    (e : EvidenceByType) (s : EvaluatorState) (v : ViolationType)
    → is_known (signal e v) ≡ false
    → lookup (mark_unknown e s v) v ≡ kept_unless_clear (lookup s v)
unfolding mark_unknown
mark_unknown-own e s v h = ground (arith, lookup-store_self s v none)

pub data IsSpatial : ViolationType → Type 0 where
  is_lateral : IsSpatial ViolationType.lateral
  is_vertical : IsSpatial ViolationType.vertical

module _ (ar : Arithmetic) (policy : Policy) (a : Assignment) (o : Observation) where
  -- A sample that gives no evidence for a spatial violation never moves its incident: an incident
  -- that is suspected, open or recovering stays as it was, with its counters and timestamps, one
  -- that is clear is removed from the state, and no transition of that violation is emitted.
  pub not_evaluated_unchanged :
      (v : ViolationType) (previous : EvaluatorState)
      → IsSpatial v
      → is_known (signal (evidence_by_type ar policy a o) v) ≡ false
      → (lookup (next_state ar policy a o previous).0 v ≡ kept_unless_clear (lookup previous v))
        × (of_violation v (next_state ar policy a o previous).1 ≡ [])
  unfolding next_state advance_all
  not_evaluated_unchanged ViolationType.lateral previous is_lateral h =
      let e = evidence_by_type ar policy a o in
      let s1 = mark_unknown e previous ViolationType.lateral in
      let s2 = mark_unknown e s1 ViolationType.vertical in
      let p1 = advance_known policy o ViolationType.lateral e.lateral (s2, []) in
      let p2 = advance_known policy o ViolationType.vertical e.vertical p1 in
      let same = advance_known-unknown policy o ViolationType.lateral e.lateral (s2, []) h in
      let u2 =
        advance_known-Untouched policy o ViolationType.vertical ViolationType.lateral e.vertical p1
          refl in
      let u3 =
        advance_known-Untouched policy o ViolationType.temporal ViolationType.lateral e.temporal p2
          refl in
      let other = mark_unknown-other e s1 ViolationType.vertical ViolationType.lateral refl in
      let own = mark_unknown-own e previous ViolationType.lateral h in
      (
        u3.0 ∙ u2.0 ∙ ap (λ (p : Progress). lookup p.0 ViolationType.lateral) same ∙ other ∙ own,
        u3.1 ∙ u2.1 ∙ ap (λ (p : Progress). of_violation ViolationType.lateral p.1) same,
      )
  not_evaluated_unchanged ViolationType.vertical previous is_vertical h =
      let e = evidence_by_type ar policy a o in
      let s1 = mark_unknown e previous ViolationType.lateral in
      let s2 = mark_unknown e s1 ViolationType.vertical in
      let p1 = advance_known policy o ViolationType.lateral e.lateral (s2, []) in
      let p2 = advance_known policy o ViolationType.vertical e.vertical p1 in
      let same = advance_known-unknown policy o ViolationType.vertical e.vertical p1 h in
      let u1 =
        advance_known-Untouched policy o ViolationType.lateral ViolationType.vertical e.lateral
          (s2, []) refl in
      let u3 =
        advance_known-Untouched policy o ViolationType.temporal ViolationType.vertical e.temporal p2
          refl in
      let own = mark_unknown-own e s1 ViolationType.vertical h in
      let other = mark_unknown-other e previous ViolationType.lateral ViolationType.vertical refl in
      (
        u3.0
            ∙ ap (λ (p : Progress). lookup p.0 ViolationType.vertical) same
            ∙ u1.0
            ∙ own
            ∙ ap kept_unless_clear other,
        u3.1 ∙ ap (λ (p : Progress). of_violation ViolationType.vertical p.1) same ∙ u1.1,
      )
  not_evaluated_unchanged ViolationType.temporal previous s h = elim s [ ]
  not_evaluated_unchanged ViolationType.telemetry_loss previous s h = elim s [ ]

  scan_volume-compatible :
      (s : Scan) (v : Volume)
      → (s.joint_pass ≡ true → s.compatible_volume ≡ true)
      → ((scan_volume ar policy o s v).compatible_volume
          ≡ (s.compatible_volume || is_comparable ar policy o v))
        × ((scan_volume ar policy o s v).joint_pass ≡ true
            → (scan_volume ar policy o s v).compatible_volume ≡ true)
  unfolding scan_volume
  scan_volume-compatible s v h = ground arith

  scan_volumes-compatible :
      (vs : List Volume) (s : Scan)
      → (s.joint_pass ≡ true → s.compatible_volume ≡ true)
      → ((scan_volumes ar policy o s vs).compatible_volume
          ≡ (s.compatible_volume || any_of (is_comparable ar policy o) vs))
        × ((scan_volumes ar policy o s vs).joint_pass ≡ true
            → (scan_volumes ar policy o s vs).compatible_volume ≡ true)
  unfolding scan_volumes
  scan_volumes-compatible [] s h = ground arith
  scan_volumes-compatible (v ∷ vs) s h =
      let one = scan_volume-compatible s v h in
      let rest = scan_volumes-compatible vs (scan_volume ar policy o s v) one.1 in
      ground (arith, one, rest)

  known_of_scan :
      (s : Scan)
      → (s.joint_pass ≡ true → s.compatible_volume ≡ true)
      → (is_known (scan_evidence ar policy s).0 ≡ true)
        × (is_known (scan_evidence ar policy s).1 ≡ s.compatible_volume)
  unfolding scan_evidence
  known_of_scan s h = ground arith

  known_of_volumes :
      (vs : List Volume)
      → (is_known (spatial_evidence ar policy o vs).0 ≡ not (is_empty vs))
        × (is_known (spatial_evidence ar policy o vs).1 ≡ any_of (is_comparable ar policy o) vs)
  unfolding spatial_evidence
  known_of_volumes [] = (refl, refl)
  known_of_volumes (v ∷ vs) =
      let scanned = scan_volumes-compatible (v ∷ vs) no_scan (λ h. cc) in
      let known = known_of_scan (scan_volumes ar policy o no_scan (v ∷ vs)) scanned.1 in
      (known.0, known.1 ∙ scanned.0)

  -- Lateral evidence is there exactly when some volume is compared against, and vertical evidence
  -- exactly when one of these volumes has the altitude reference of a sample whose altitude is known.
  pub evidence_known_iff :
      (is_known (signal (evidence_by_type ar policy a o) ViolationType.lateral)
        ≡ not (is_empty (spatial_volumes a o.observed_at)))
      × (is_known (signal (evidence_by_type ar policy a o) ViolationType.vertical)
          ≡ any_of (is_comparable ar policy o) (spatial_volumes a o.observed_at))
  unfolding evidence_by_type
  evidence_known_iff = known_of_volumes (spatial_volumes a o.observed_at)
