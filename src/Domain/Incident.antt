-- ===== src/Domain/Incident.antt =====
-- Incident states, the evaluator's state and evaluations: internal/domain/types.go. The map from
-- violations to incident states has a field for each violation.
use aero_arc_conformance.Prelude.{
  ℕ, Option, none, some, List, [], ◌∷◌, ◌++◌, String, ◌≡◌, ◌≢◌, refl, arith,
}
use aero_arc_conformance.Domain.Float.{Float64, zero_float}
use aero_arc_conformance.Domain.Time.{Time}
use aero_arc_conformance.Domain.Types.{
  Condition, MonitoringStatus, RecordingStatus, ViolationType, IncidentPhase, Transition,
}

pub record IncidentState : Type 0 where
  pub phase : IncidentPhase
  pub opening_frame_id : String
  pub consecutive_outside : ℕ
  pub consecutive_inside : ℕ
  pub first_suspected_at : Time
  pub opened_at : Time
  pub last_observed_at : Time
  pub worst_deviation_m : Float64

-- IncidentState{}.
abbrev pub empty_incident : IncidentState
empty_incident = record {
  phase = IncidentPhase.unset;
  opening_frame_id = "";
  consecutive_outside = 0;
  consecutive_inside = 0;
  first_suspected_at = 0;
  opened_at = 0;
  last_observed_at = 0;
  worst_deviation_m = zero_float;
}

pub record EvaluatorState : Type 0 where
  pub lateral : Option IncidentState
  pub vertical : Option IncidentState
  pub temporal : Option IncidentState
  pub telemetry_loss : Option IncidentState

abbrev pub empty_state : EvaluatorState
empty_state = record { lateral = none; vertical = none; temporal = none; telemetry_loss = none }

-- `states[violation]`, with its second result.
abbrev pub lookup : EvaluatorState → ViolationType → Option IncidentState
lookup s ViolationType.lateral = s.lateral
lookup s ViolationType.vertical = s.vertical
lookup s ViolationType.temporal = s.temporal
lookup s ViolationType.telemetry_loss = s.telemetry_loss

-- An assignment to `states[violation]`, or its deletion.
abbrev pub store : EvaluatorState → ViolationType → Option IncidentState → EvaluatorState
store s ViolationType.lateral i = record s { lateral = i }
store s ViolationType.vertical i = record s { vertical = i }
store s ViolationType.temporal i = record s { temporal = i }
store s ViolationType.telemetry_loss i = record s { telemetry_loss = i }

-- The value of `states[violation]`: the zero value where it is missing.
abbrev pub or_empty : Option IncidentState → IncidentState
or_empty none = empty_incident
or_empty (some i) = i

abbrev pub entry : ViolationType → Option IncidentState → List (ViolationType × IncidentState)
entry v none = []
entry v (some i) = (v, i) ∷ []

-- The entries of the map, in one of the orders in which Go may range over it.
abbrev pub entries : EvaluatorState → List (ViolationType × IncidentState)
entries s =
    entry ViolationType.lateral s.lateral
    ++ (entry ViolationType.vertical s.vertical
        ++ (entry ViolationType.temporal s.temporal
            ++ entry ViolationType.telemetry_loss s.telemetry_loss))

pub lookup-store_self :
    (s : EvaluatorState) (v : ViolationType) (i : Option IncidentState) → lookup (store s v i) v ≡ i
lookup-store_self s ViolationType.lateral i = refl
lookup-store_self s _ i = refl

pub lookup-store_ne :
    (s : EvaluatorState) (v w : ViolationType) (i : Option IncidentState)
    → v ≢ w
    → lookup (store s v i) w ≡ lookup s w
lookup-store_ne s v w i h = ground arith

pub record IncidentTransition : Type 0 where
  pub violation : ViolationType
  pub transition : Transition
  pub observed_at : Time
  pub frame_id : String
  pub opening_frame_id : String
  pub wal_id : String
  pub wal_sequence : ℕ
  pub deviation_m : Float64

pub record Evaluation : Type 0 where
  pub condition : Condition
  pub monitoring : MonitoringStatus
  pub recording : RecordingStatus
  pub state : EvaluatorState
  pub transitions : List IncidentTransition
  pub causal_from : Time
  pub observed_at : Time
  pub frame_id : String
  pub wal_id : String
  pub wal_sequence : ℕ
