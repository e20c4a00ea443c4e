-- ===== src/Evaluator/Evaluate.antt =====
-- `Evaluate` and `AssessMonitoring` of internal/evaluator/evaluator.go.
use aero_arc_conformance.Prelude.{
  Bool, true, false, not, ◌&&◌, ◌||◌, ltb_ℤ, if◌then◌else◌, Option, none, some, List, [], ◌∷◌, ◌++◌,
  Result, ok, ◌>>◌, fail_if,
}
use mathlib.Core.List.{foldl}
use aero_arc_conformance.Domain.Float.{Arithmetic}
use aero_arc_conformance.Domain.Time.{Time, before, sub, is_zero}
use aero_arc_conformance.Domain.Types.{
  Condition, MonitoringStatus, RecordingStatus, ViolationType, IncidentPhase,
}
use aero_arc_conformance.Domain.Assignment.{Assignment, Observation}
use aero_arc_conformance.Domain.Incident.{
  IncidentState, EvaluatorState, IncidentTransition, Evaluation, lookup, store, or_empty, entries,
}
use aero_arc_conformance.Evaluator.Policy.{
  Policy, InvalidInput, identity_mismatch, validate_assignment, identity_differs,
}
use aero_arc_conformance.Evaluator.Advance.{advance, is_phase}
use aero_arc_conformance.Evaluator.Spatial.{Evidence, EvidenceByType, evidence_by_type}

abbrev pub is_settled : IncidentPhase → Bool
is_settled p = is_phase p IncidentPhase.clear || is_phase p IncidentPhase.unset

abbrev pub earlier_of : Time → Time → Time
earlier_of earliest candidate =
    if not (is_zero candidate) && before candidate earliest then candidate else earliest

unfoldable pub causal_step : Time → ViolationType × IncidentState → Time
causal_step earliest (v, incident) =
    if is_settled incident.phase
    then earliest
    else earlier_of (earlier_of earliest incident.first_suspected_at) incident.opened_at

unfoldable pub earliest_causal_timestamp : EvaluatorState → Time → Time
earliest_causal_timestamp state fallback = foldl causal_step fallback (entries state)

abbrev pub is_clear_or_missing : Option IncidentState → Bool
is_clear_or_missing none = true
is_clear_or_missing (some i) = is_settled i.phase

unfoldable pub mark_not_evaluated : EvaluatorState → ViolationType → EvaluatorState
mark_not_evaluated s v = if is_clear_or_missing (lookup s v) then store s v none else s

-- `evidenceByType[violation]`: not known where it is missing.
abbrev pub signal : EvidenceByType → ViolationType → Option Evidence
signal e ViolationType.lateral = e.lateral
signal e ViolationType.vertical = e.vertical
signal e ViolationType.temporal = e.temporal
signal e ViolationType.telemetry_loss = none

abbrev pub is_known : Option Evidence → Bool
is_known none = false
is_known (some e) = e.known

unfoldable pub mark_unknown : EvidenceByType → EvaluatorState → ViolationType → EvaluatorState
unfolding mark_not_evaluated
mark_unknown e s v = if is_known (signal e v) then s else mark_not_evaluated s v

abbrev pub appended : List IncidentTransition → Option IncidentTransition → List IncidentTransition
appended ts none = ts
appended ts (some t) = ts ++ t ∷ []

abbrev pub Progress : Type 0
Progress = EvaluatorState × List IncidentTransition

-- `e.advance` on the stored state, and its results put back.
unfoldable pub advance_stored :
    Policy → Observation → ViolationType → Evidence → Progress → Progress
advance_stored policy o v e (s, ts) =
    let (next, transition) = advance policy v (or_empty (lookup s v)) e.breached e.deviation o in
    (store s v (some next), appended ts transition)

abbrev pub advance_known :
    Policy → Observation → ViolationType → Option Evidence → Progress → Progress
advance_known policy o v none p = p
advance_known policy o v (some e) p = if e.known then advance_stored policy o v e p else p

unfoldable pub advance_all : Policy → Observation → EvidenceByType → EvaluatorState → Progress
unfolding advance_stored
advance_all policy o e s =
    let p1 =
      advance_known policy o ViolationType.lateral (signal e ViolationType.lateral) (s, []) in
    let p2 = advance_known policy o ViolationType.vertical (signal e ViolationType.vertical) p1 in
    advance_known policy o ViolationType.temporal (signal e ViolationType.temporal) p2

-- The switch on an incident's phase.
abbrev pub raise_by : Condition → IncidentPhase → Condition
raise_by c IncidentPhase.opened = Condition.non_conforming
raise_by Condition.non_conforming IncidentPhase.suspected = Condition.non_conforming
raise_by c IncidentPhase.suspected = Condition.suspected
raise_by Condition.conforming IncidentPhase.recovering = Condition.recovering
raise_by c _ = c

-- The body of the loop that folds the incidents into a condition.
unfoldable pub raise_condition : Condition → ViolationType × IncidentState → Condition
raise_condition c (ViolationType.telemetry_loss, i) = c
raise_condition c (_, i) = raise_by c i.phase

unfoldable pub condition_of : List (ViolationType × IncidentState) → Condition
unfolding raise_condition
condition_of incidents = foldl raise_condition Condition.conforming incidents

abbrev pub unknown_if_conforming : Condition → Condition
unknown_if_conforming Condition.conforming = Condition.unknown
unknown_if_conforming c = c

-- With no vertical evidence a conforming result is unknown.
abbrev pub final_for : Option Evidence → Condition → Condition
final_for none c = unknown_if_conforming c
final_for (some e) c = c

unfoldable pub final_condition : EvidenceByType → Condition → Condition
final_condition e c = final_for e.vertical c

module _ (ar : Arithmetic) (policy : Policy) where
  -- The state and the transitions of one accepted observation.
  unfoldable pub next_state : Assignment → Observation → EvaluatorState → Progress
  unfolding mark_unknown advance_all
  next_state a o previous =
      let e = evidence_by_type ar policy a o in
      advance_all policy o e
        (mark_unknown e (mark_unknown e previous ViolationType.lateral) ViolationType.vertical)

  unfoldable pub evaluation_of : Assignment → Observation → EvaluatorState → Evaluation
  evaluation_of a o previous =
      let p = next_state a o previous in
      record {
        condition = final_condition (evidence_by_type ar policy a o) (condition_of (entries p.0));
        monitoring = MonitoringStatus.current;
        recording = RecordingStatus.pending;
        state = p.0;
        transitions = p.1;
        causal_from = earliest_causal_timestamp previous o.observed_at;
        observed_at = o.observed_at;
        frame_id = o.frame_id;
        wal_id = o.wal_id;
        wal_sequence = o.wal_sequence;
      }

  -- `now` is not read.
  unfoldable pub evaluate :
      Time → Assignment → Observation → EvaluatorState → Result InvalidInput Evaluation
  evaluate now a o previous = do
    validate_assignment a policy
    fail_if (identity_differs a o) identity_mismatch
    ok (evaluation_of a o previous)

unfoldable pub assess_monitoring : Policy → Time → Time → Bool → MonitoringStatus
assess_monitoring policy now latest_arrival dependency_available =
    if not dependency_available
    then MonitoringStatus.unavailable
    else if is_zero latest_arrival || ltb_ℤ policy.telemetry_freshness (sub now latest_arrival)
    then MonitoringStatus.stale
    else MonitoringStatus.current
