-- ===== src/Domain/Types.antt =====
-- The string enumerations of internal/domain/types.go.
use aero_arc_conformance.Prelude.{Bool, true, false, ◌≡◌, ◌↔◌, arith}

pub data Condition : Type 0 where
  unknown conforming suspected non_conforming recovering : Condition

pub data MonitoringStatus : Type 0 where
  received armed current stale unavailable : MonitoringStatus

pub data RecordingStatus : Type 0 where
  pending confirmed degraded : RecordingStatus

pub data ViolationType : Type 0 where
  lateral vertical temporal telemetry_loss : ViolationType

pub data AltitudeReference : Type 0 where
  msl agl : AltitudeReference

pub data AssignmentLifecycle : Type 0 where
  candidate_received candidate_armed active ending completed cancelled superseded :
      AssignmentLifecycle

-- `unset` is the empty string, the phase of a zero IncidentState; `opened` is IncidentOpen.
pub data IncidentPhase : Type 0 where
  unset clear suspected opened recovering : IncidentPhase

pub data Transition : Type 0 where
  opened updated resolved : Transition

-- Equality of the string constants.
abbrev pub same_reference : AltitudeReference → AltitudeReference → Bool
same_reference AltitudeReference.msl AltitudeReference.msl = true
same_reference AltitudeReference.agl AltitudeReference.agl = true
same_reference _ _ = false

abbrev pub same_violation : ViolationType → ViolationType → Bool
same_violation ViolationType.lateral ViolationType.lateral = true
same_violation ViolationType.vertical ViolationType.vertical = true
same_violation ViolationType.temporal ViolationType.temporal = true
same_violation ViolationType.telemetry_loss ViolationType.telemetry_loss = true
same_violation _ _ = false

pub same_violation_iff : (v w : ViolationType) → (same_violation v w ≡ true) ↔ (v ≡ w)
same_violation_iff v w = ground arith
