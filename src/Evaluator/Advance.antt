-- ===== src/Evaluator/Advance.antt =====
-- The hysteresis of one incident: `advance` of internal/evaluator/evaluator.go.
use aero_arc_conformance.Prelude.{
  pos, ◌+◌, Bool, true, false, ◌&&◌, leb_ℤ, if◌then◌else◌, Option, none, some, String,
}
use aero_arc_conformance.Domain.Float.{Float64, float_lt, zero_float}
use aero_arc_conformance.Domain.Time.{Time}
use aero_arc_conformance.Domain.Types.{ViolationType, IncidentPhase, Transition}
use aero_arc_conformance.Domain.Assignment.{Observation}
use aero_arc_conformance.Domain.Incident.{IncidentState, IncidentTransition, empty_incident}
use aero_arc_conformance.Evaluator.Policy.{Policy}

abbrev pub is_phase : IncidentPhase → IncidentPhase → Bool
is_phase IncidentPhase.unset IncidentPhase.unset = true
is_phase IncidentPhase.clear IncidentPhase.clear = true
is_phase IncidentPhase.suspected IncidentPhase.suspected = true
is_phase IncidentPhase.opened IncidentPhase.opened = true
is_phase IncidentPhase.recovering IncidentPhase.recovering = true
is_phase _ _ = false

-- The switch on the phase when the sample breaches.
abbrev pub breached_phase : IncidentState → Time → IncidentPhase → IncidentState
breached_phase s at IncidentPhase.unset = record s {
  phase = IncidentPhase.suspected;
  first_suspected_at = at;
}
breached_phase s at IncidentPhase.clear = record s {
  phase = IncidentPhase.suspected;
  first_suspected_at = at;
}
breached_phase s at IncidentPhase.recovering = record s { phase = IncidentPhase.opened }
breached_phase s at _ = s

abbrev pub transition_at :
    ViolationType → Transition → String → Float64 → Observation → IncidentTransition
transition_at v t opening deviation o = record {
  violation = v;
  transition = t;
  observed_at = o.observed_at;
  frame_id = o.frame_id;
  opening_frame_id = opening;
  wal_id = o.wal_id;
  wal_sequence = o.wal_sequence;
  deviation_m = deviation;
}

unfoldable pub advance_breached :
    Policy
    → ViolationType
    → IncidentState
    → Float64
    → Observation
    → IncidentState × Option IncidentTransition
advance_breached policy v state deviation o =
    let worst =
      if float_lt state.worst_deviation_m deviation then deviation else state.worst_deviation_m in
    let counted = record state {
      last_observed_at = o.observed_at;
      consecutive_inside = 0;
      consecutive_outside = state.consecutive_outside + 1;
      worst_deviation_m = worst;
    } in
    let s = breached_phase counted o.observed_at state.phase in
    if is_phase s.phase IncidentPhase.suspected
      && leb_ℤ policy.open_after_samples (pos s.consecutive_outside)
    then (
      record s {
        phase = IncidentPhase.opened;
        opened_at = s.first_suspected_at;
        opening_frame_id = o.frame_id;
      },
      some (transition_at v Transition.opened o.frame_id deviation o),
    )
    else (s, none)

abbrev pub cleared : Observation → IncidentState
cleared o = record empty_incident { phase = IncidentPhase.clear; last_observed_at = o.observed_at }

unfoldable pub advance_inside :
    Policy → ViolationType → IncidentState → Observation → IncidentState × Option IncidentTransition
advance_inside policy v state o =
    let counted = record state {
      last_observed_at = o.observed_at;
      consecutive_outside = 0;
      consecutive_inside = state.consecutive_inside + 1;
    } in
    if is_phase state.phase IncidentPhase.suspected
    then (cleared o, none)
    else let recovering =
        if is_phase state.phase IncidentPhase.opened
        then record counted { phase = IncidentPhase.recovering }
        else counted in
      if is_phase recovering.phase IncidentPhase.recovering
        && leb_ℤ policy.recover_after_samples (pos recovering.consecutive_inside)
      then (
        cleared o,
        some (transition_at v Transition.resolved state.opening_frame_id zero_float o),
      )
      else if is_phase recovering.phase IncidentPhase.unset
      then (record recovering { phase = IncidentPhase.clear }, none)
      else (recovering, none)

unfoldable pub advance :
    Policy
    → ViolationType
    → IncidentState
    → Bool
    → Float64
    → Observation
    → IncidentState × Option IncidentTransition
unfolding advance_breached advance_inside
advance policy v state breached deviation o =
    if breached
    then advance_breached policy v state deviation o
    else advance_inside policy v state o
