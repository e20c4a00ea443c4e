-- ===== src/Scenarios/Engine.antt =====
-- The engine on the scenarios' flight.
use mathlib.Core.List.Perm
use mathlib.Core.Path.{◌≡◌, refl}
use aero_arc_conformance.Prelude.{
  ℕ, ◌+◌, ◌≤◌, Bool, true, false, Option, none, some, List, [], ◌∷◌, inl, String, ok, ◌>>=◌, arith,
  not, is_empty, any_of,
}
use aero_arc_conformance.Domain.Float.{float_lt, is_inf, float_le, zero_float, one_float}
use aero_arc_conformance.Domain.Types.{ViolationType, IncidentPhase, Transition}
use aero_arc_conformance.Domain.Assignment.{Assignment}
use aero_arc_conformance.Domain.Incident.{
  IncidentState, EvaluatorState, Evaluation, empty_incident, empty_state, lookup,
}
use aero_arc_conformance.Evaluator.Advance.{advance, transition_at, cleared}
use aero_arc_conformance.Evaluator.Evaluate.{
  evaluate, condition_of, next_state, is_known, signal, evaluation_of,
}
use aero_arc_conformance.Evaluator.Spatial.{
  is_active_volume, latest_of, latest_step, terminal_overrun_volumes, outside_window,
  evidence_by_type, spatial_volumes, is_comparable,
}
use aero_arc_conformance.Evaluator.Policy.{validate_assignment, identity_differs}
use aero_arc_conformance.Evaluator.Batch.{observation_before, evaluate_batch, batch_loop}
use aero_arc_conformance.Evaluator.Samples.{Sample, run_samples, IsQuiet}
use aero_arc_conformance.Evaluator.Hysteresis.{opens_after_samples, resolves_after_samples}
use aero_arc_conformance.Evaluator.Occurrences.{
  evaluate_batch-ledger, ledger_of, of_violation, open_occurrence,
}
use aero_arc_conformance.Evaluator.Replay.{evaluate_batch-append, continue_with}
use aero_arc_conformance.Evaluator.Conditions.{condition_of_any_order, worst_condition}
use aero_arc_conformance.Evaluator.NotEvaluated.{
  not_evaluated_unchanged, evidence_known_iff, is_lateral,
}
use aero_arc_conformance.Evaluator.Overrun.{terminal_overrun_volumes_lem}
use aero_arc_conformance.Evaluator.Window.{evaluate_batch_window, SoundResult}
use aero_arc_conformance.Evaluator.Causal.{SoundState, empty-Sound}
use aero_arc_conformance.Scenarios.Flight.{
  first_operand, flight_policy, flight, corridor, takeoff, observed, first_frame, second_frame,
  third_frame, value_or,
}

abbrev sample : Bool → ℕ → Sample
sample b n = record { breached = b; deviation = one_float; observation = observed "f" n n }

opens_after_samples_example :
    let r =
      run_samples flight_policy ViolationType.lateral empty_incident
        (sample true 1 ∷ sample true 2 ∷ []) in
    ((run_samples flight_policy ViolationType.lateral empty_incident (sample true 1 ∷ [])).1 ≡ [])
    × (r.1
        ≡ transition_at ViolationType.lateral Transition.opened "f" one_float (observed "f" 2 2)
          ∷ [])
    × (r.0.phase ≡ IncidentPhase.opened)
    × (r.0.opened_at ≡ takeoff + 1)
    × ((y : Sample)
        → y.breached ≡ false
        → IsQuiet flight_policy ViolationType.lateral
            (run_samples flight_policy ViolationType.lateral empty_incident
              (sample true 1 ∷ y ∷ [])).0
          × ((run_samples flight_policy ViolationType.lateral empty_incident
                (sample true 1 ∷ y ∷ [])).1
              ≡ []))
unfolding run_samples
opens_after_samples_example =
    opens_after_samples flight_policy ViolationType.lateral [] (sample true 1 ∷ []) (sample true 2)
      refl (inl refl) (refl, tt) refl

-- The two samples that open the incident.
abbrev opening_samples : List Sample
opening_samples = sample true 1 ∷ sample true 2 ∷ []

abbrev flown_incident : IncidentState
flown_incident = (run_samples flight_policy ViolationType.lateral empty_incident opening_samples).0

opened_phase : flown_incident.phase ≡ IncidentPhase.opened
unfolding run_samples advance float_lt
opened_phase = refl

resolves_after_samples_example :
    let r =
      run_samples flight_policy ViolationType.lateral flown_incident
        (sample false 1 ∷ sample false 2 ∷ []) in
    ((run_samples flight_policy ViolationType.lateral flown_incident (sample false 1 ∷ [])).1 ≡ [])
    × (r.1
        ≡ transition_at ViolationType.lateral Transition.resolved flown_incident.opening_frame_id
            zero_float
            (observed "f" 2 2)
          ∷ [])
    × (r.0 ≡ cleared (observed "f" 2 2))
    × ((y : Sample)
        → y.breached ≡ true
        → let u =
            run_samples flight_policy ViolationType.lateral flown_incident
              (sample false 1 ∷ y ∷ []) in
          (u.0.phase ≡ IncidentPhase.opened)
          × (u.0.opening_frame_id ≡ flown_incident.opening_frame_id)
          × (u.1 ≡ []))
resolves_after_samples_example =
    resolves_after_samples flight_policy ViolationType.lateral opening_samples (sample false 1 ∷ [])
      (sample false 2) refl opened_phase (refl, tt) refl

abbrev open_incident : IncidentState
open_incident = record empty_incident {
  phase = IncidentPhase.opened;
  opening_frame_id = "f0";
  opened_at = takeoff;
}

-- A flight that overruns its window: the volume ends between the first two frames.
abbrev flown : Evaluation
flown = value_or (evaluation_of first_operand flight_policy flight first_frame empty_state) (
    evaluate_batch first_operand flight_policy flight
      (first_frame ∷ second_frame ∷ third_frame ∷ []) empty_state)

flown-ok :
    evaluate_batch first_operand flight_policy flight
      (first_frame ∷ second_frame ∷ third_frame ∷ [])
      empty_state
    ≡ ok flown
unfolding evaluate_batch evaluate validate_assignment float_lt is_inf float_le identity_differs
    batch_loop observation_before
flown-ok = refl

abbrev opened_frame : Option String
opened_frame = open_occurrence flown.state ViolationType.temporal

evaluate_batch-ledger_example :
    ledger_of none (of_violation ViolationType.temporal flown.transitions) ≡ some opened_frame
evaluate_batch-ledger_example =
    evaluate_batch-ledger first_operand flight_policy flight ViolationType.temporal
      (first_frame ∷ second_frame ∷ third_frame ∷ []) empty_state flown flown-ok

empty-SoundState : SoundState takeoff (takeoff + 10) empty_state
empty-SoundState ViolationType.lateral = empty-Sound _ _
empty-SoundState ViolationType.vertical = empty-Sound _ _
empty-SoundState ViolationType.temporal = empty-Sound _ _
empty-SoundState ViolationType.telemetry_loss = empty-Sound _ _

evaluate_batch_window_example :
    SoundResult takeoff third_frame flown
    × (takeoff ≤ flown.causal_from)
    × (flown.causal_from ≤ flown.observed_at)
evaluate_batch_window_example =
    evaluate_batch_window first_operand flight_policy flight takeoff first_frame
      (second_frame ∷ third_frame ∷ []) empty_state flown flown-ok (omega arith) empty-SoundState

evaluate_batch-append_example :
    evaluate_batch first_operand flight_policy flight
      (first_frame ∷ second_frame ∷ third_frame ∷ [])
      empty_state
    ≡ (evaluate_batch first_operand flight_policy flight
          (first_frame ∷ second_frame ∷ [])
          empty_state
        >>= λ first.
            continue_with first_operand flight_policy flight second_frame first third_frame [])
evaluate_batch-append_example =
    evaluate_batch-append first_operand flight_policy flight first_frame (second_frame ∷ [])
      third_frame [] empty_state

-- Two incidents, met in the other order.
abbrev two_incidents : EvaluatorState
two_incidents = record empty_state { lateral = some open_incident; temporal = some empty_incident }

condition_of_any_order_example :
    condition_of
      ((ViolationType.temporal, empty_incident) ∷ (ViolationType.lateral, open_incident) ∷ [])
    ≡ worst_condition two_incidents
condition_of_any_order_example =
    condition_of_any_order two_incidents
      ((ViolationType.temporal, empty_incident) ∷ (ViolationType.lateral, open_incident) ∷ [])
      (Perm.swap _ _ [])

-- A volume that has not begun gives no evidence.
abbrev grounded : Assignment
grounded = record flight { volumes = record corridor { starts_at = takeoff + 20 } ∷ [] }

not_evaluated_unchanged_example :
    let next = next_state first_operand flight_policy grounded first_frame two_incidents in
    (lookup next.0 ViolationType.lateral ≡ some open_incident)
    × (of_violation ViolationType.lateral next.1 ≡ [])
unfolding next_state evidence_by_type is_active_volume terminal_overrun_volumes latest_of
    latest_step
not_evaluated_unchanged_example =
    not_evaluated_unchanged first_operand flight_policy grounded first_frame ViolationType.lateral
      two_incidents is_lateral refl

evidence_known_iff_example :
    (is_known (
        signal
          (evidence_by_type first_operand flight_policy flight first_frame)
          ViolationType.lateral)
      ≡ not (is_empty (spatial_volumes flight first_frame.observed_at)))
    × (is_known (
          signal
            (evidence_by_type first_operand flight_policy flight first_frame)
            ViolationType.vertical)
        ≡ any_of
            (is_comparable first_operand flight_policy first_frame)
            (spatial_volumes flight first_frame.observed_at))
evidence_known_iff_example = evidence_known_iff first_operand flight_policy flight first_frame

terminal_overrun_volumes_lem_example :
    terminal_overrun_volumes flight (takeoff + 50) ≡ corridor ∷ []
unfolding outside_window
terminal_overrun_volumes_lem_example =
    terminal_overrun_volumes_lem flight (takeoff + 50) (omega arith, tt)
