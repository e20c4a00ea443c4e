-- ===== src/Scenarios/Passing.antt =====
-- The resumed evaluation of the flight, at the store.
use aero_arc_conformance.Prelude.{◌≡◌, refl, ◌+◌, true, some, [], ◌∷◌}
use aero_arc_conformance.Domain.Time.{unix_nano, supported_unix_nanoseconds}
use aero_arc_conformance.Domain.Incident.{empty_state}
use aero_arc_conformance.Store.Rows.{CheckpointRow}
use aero_arc_conformance.Store.Tables.{Row, Tables, update_where}
use aero_arc_conformance.Store.Write.{write_confirmed, confirmed, newest_checkpoint}
use aero_arc_conformance.Store.Evaluations.{commit_row, is_committed, evaluated_row}
use aero_arc_conformance.Store.Passes.{HasAuthority, SameCheckpoint, Fenced-commit_row}
use aero_arc_conformance.Scenarios.Commands.{plain_codec}
use aero_arc_conformance.Scenarios.Flight.{takeoff, flight}
use aero_arc_conformance.Scenarios.Leases.{active_row, before_claims}
use aero_arc_conformance.Scenarios.Claims.{resumed, resumed_evaluation, checkpoint, resumed-Fenced}

abbrev first_checkpoint : CheckpointRow
first_checkpoint = record {
  assignment_id = "assignment";
  generation = 1;
  evaluation_revision = 1;
  state_through_at = unix_nano (takeoff + 10);
  wal_id = "wal";
  wal_sequence = 1;
  frame_id = "f1";
  evaluator_state = empty_state;
}

abbrev row_once : Row
row_once = record active_row { evaluation_revision = 1 }

abbrev evaluated_once : Tables
evaluated_once = record before_claims {
  assignments = row_once ∷ [];
  checkpoints = first_checkpoint ∷ [];
}

resumed-HasAuthority : HasAuthority resumed row_once
unfolding supported_unix_nanoseconds
resumed-HasAuthority = record { low = refl; high = refl; from = refl; until = refl }

checkpoint-SameCheckpoint :
    SameCheckpoint (newest_checkpoint "assignment" 1 evaluated_once.checkpoints) (some checkpoint)
unfolding newest_checkpoint supported_unix_nanoseconds
checkpoint-SameCheckpoint = record {
  supported = refl;
  through = refl;
  wal = refl;
  sequence = refl;
  frame = refl;
}

Fenced-commit_row_example :
    commit_row plain_codec
      (takeoff + 210)
      evaluated_once
      resumed
      (record { evaluation = resumed_evaluation; next_evaluation_at = takeoff + 207 })
      (some row_once)
    ≡ write_confirmed plain_codec flight 2
        (confirmed resumed_evaluation)
        (takeoff + 210)
        true
        (record evaluated_once {
          assignments =
              update_where
                (is_committed plain_codec (takeoff + 210) resumed resumed_evaluation)
                (evaluated_row plain_codec (takeoff + 210) (takeoff + 207))
                evaluated_once.assignments;
        })
Fenced-commit_row_example =
    Fenced-commit_row plain_codec (takeoff + 210) evaluated_once resumed (some checkpoint)
      resumed_evaluation (takeoff + 207) row_once resumed-Fenced resumed-HasAuthority
      checkpoint-SameCheckpoint
