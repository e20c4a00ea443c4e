-- ===== src/Evaluator/Hysteresis.antt =====
-- How many samples open and resolve an incident: `advance` of internal/evaluator/evaluator.go.
use aero_arc_conformance.Prelude.{
  inl, false, pos, suc, ◌≡◌, refl, true, List, [], ◌∷◌, ◌++◌, length, All, arith,
}
use aero_arc_conformance.Domain.Float.{zero_float}
use aero_arc_conformance.Domain.Types.{ViolationType, IncidentPhase, Transition}
use aero_arc_conformance.Domain.Incident.{IncidentState, empty_incident}
use aero_arc_conformance.Evaluator.Policy.{Policy}
use aero_arc_conformance.Evaluator.Advance.{advance, transition_at}
use aero_arc_conformance.Evaluator.Samples.{
  Sample, step, run_samples, IsQuiet, IsBreached, IsInside, IsRecovering, first_time, opens_from,
  resolves_from, starts_over, breaks_recovery,
}

module _ (policy : Policy) (v : ViolationType) where
  -- The counters that the start of a phase relies on.
  pub record IsReset (s : IncidentState) : Type 0 where
    pub quiet_outside : IsQuiet policy v s → s.consecutive_outside ≡ 0
    pub open_inside : s.phase ≡ IncidentPhase.opened → s.consecutive_inside ≡ 0

  step-IsReset : (s : IncidentState) (x : Sample) → IsReset s → IsReset (step policy v s x).0
  unfolding advance
  step-IsReset s x h = record {
    quiet_outside = λ q. ground (arith, q, h.quiet_outside);
    open_inside = λ o. ground (arith, o, h.open_inside);
  }

  run-IsReset :
      (s : IncidentState) (xs : List Sample) → IsReset s → IsReset (run_samples policy v s xs).0
  unfolding run_samples
  run-IsReset s [] h = h
  run-IsReset s (x ∷ xs) h = run-IsReset (step policy v s x).0 xs (step-IsReset s x h)

  empty-IsReset : IsReset empty_incident
  empty-IsReset = record { quiet_outside = λ q. refl; open_inside = λ o. refl }

  -- The incident after the samples seen so far, from the first one on.
  abbrev pub after : List Sample → IncidentState
  after seen = (run_samples policy v empty_incident seen).0

  -- After whatever samples, where the incident is clear, as many breached samples in a row as the
  -- policy asks for open it: none before the last emits a transition, the last one emits the opening,
  -- which names the last frame, and the incident is open since the first of them. With a sample inside
  -- in place of the last one nothing is emitted, and the incident is clear, so that the count starts
  -- over.
  pub opens_after_samples :
      (seen xs : List Sample) (x : Sample)
      → policy.open_after_samples ≡ pos (suc (length xs))
      → IsQuiet policy v (after seen)
      → All (IsBreached policy v) xs
      → x.breached ≡ true
      → let r = run_samples policy v (after seen) (xs ++ x ∷ []) in
        ((run_samples policy v (after seen) xs).1 ≡ [])
        × (r.1
            ≡ transition_at v Transition.opened x.observation.frame_id x.deviation x.observation
              ∷ [])
        × (r.0.phase ≡ IncidentPhase.opened)
        × (r.0.opened_at ≡ first_time policy v xs x)
        × ((y : Sample)
            → y.breached ≡ false
            → IsQuiet policy v (run_samples policy v (after seen) (xs ++ y ∷ [])).0
              × ((run_samples policy v (after seen) (xs ++ y ∷ [])).1 ≡ []))
  opens_after_samples seen xs x p quiet bs b =
      let zero = (run-IsReset empty_incident seen empty-IsReset).quiet_outside quiet in
      let (silent, opening, phase, since) =
        opens_from policy v (after seen) xs x p quiet zero bs b in
      (
        silent,
        opening,
        phase,
        since,
        λ y inside. starts_over policy v (after seen) xs y p quiet zero bs inside,
      )

  -- After whatever samples, where the incident is open, as many samples inside in a row as the policy
  -- asks for resolve it: none before the last emits a transition, the last one emits the resolution,
  -- which names the frame that opened the incident, and the incident is clear again with all its
  -- counters at zero. With a breached sample in place of the last one nothing is emitted, and the
  -- incident is open with the same opening frame, so that the count starts over.
  pub resolves_after_samples :
      (seen xs : List Sample) (x : Sample)
      → policy.recover_after_samples ≡ pos (suc (length xs))
      → (after seen).phase ≡ IncidentPhase.opened
      → All (IsInside policy v) xs
      → x.breached ≡ false
      → let r = run_samples policy v (after seen) (xs ++ x ∷ []) in
        ((run_samples policy v (after seen) xs).1 ≡ [])
        × (r.1
            ≡ transition_at v Transition.resolved
                (after seen).opening_frame_id
                zero_float
                x.observation
              ∷ [])
        × (r.0 ≡ record empty_incident {
          phase = IncidentPhase.clear;
          last_observed_at = x.observation.observed_at;
        })
        × ((y : Sample)
            → y.breached ≡ true
            → let u = run_samples policy v (after seen) (xs ++ y ∷ []) in
              (u.0.phase ≡ IncidentPhase.opened)
              × (u.0.opening_frame_id ≡ (after seen).opening_frame_id)
              × (u.1 ≡ []))
  resolves_after_samples seen xs x p is_open bs b =
      let recovering : IsRecovering policy v 0 (after seen).opening_frame_id (after seen) = record {
        phase_open = inl is_open;
        inside = (run-IsReset empty_incident seen empty-IsReset).open_inside is_open;
        opening_frame = refl;
      } in
      let (silent, resolution, clear) =
        resolves_from policy v (after seen) xs x p recovering bs b in
      (
        silent,
        resolution,
        clear,
        λ y breach. breaks_recovery policy v (after seen) xs y p recovering bs breach,
      )
