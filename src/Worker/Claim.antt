-- ===== src/Worker/Claim.antt =====
-- The worker's configuration, and the claims and checkpoints that the store hands it:
-- internal/worker/evaluation.go, `Claim` and `ReplayCheckpoint` of internal/store/postgres/store.go.
use aero_arc_conformance.Prelude.{
  ℕ, ℤ, pos, ◌||◌, ◌==◌, string_eq, leb_ℤ, ltb_ℤ, String, Result, fail_if,
}
use aero_arc_conformance.Domain.Time.{Time, Duration}
use aero_arc_conformance.Domain.Assignment.{Assignment}
use aero_arc_conformance.Evaluator.Policy.{InvalidInput}
use aero_arc_conformance.Domain.Incident.{EvaluatorState}

pub record Config : Type 0 where
  pub worker_id : String
  pub poll_interval : Duration
  pub lease_duration : Duration
  pub renew_interval : Duration
  pub settle_delay : Duration
  pub overlap_window : Duration
  pub claim_batch_size : ℤ  -- int

pub data ConfigError : Type 0 where
  invalid_configuration : ConfigError

unfoldable pub validate : Config → Result ConfigError (Unit {0})
validate c =
    fail_if
      (c.worker_id == ""
        || leb_ℤ c.poll_interval (pos 0)
        || leb_ℤ c.lease_duration (pos 0)
        || leb_ℤ c.renew_interval (pos 0)
        || leb_ℤ c.lease_duration c.renew_interval
        || ltb_ℤ c.settle_delay (pos 0)
        || leb_ℤ c.overlap_window (pos 0)
        || ltb_ℤ c.claim_batch_size (pos 1))
      invalid_configuration

-- What the worker's dependencies report, as far as it tells their errors apart.
pub data WorkerError : Type 0 where
  wal_identity_unavailable window_saturated lease_lost canceled checkpoint_mismatch : WorkerError
  invalid_batch : InvalidInput → WorkerError
  other : String → WorkerError

pub record Claim : Type 0 where
  pub assignment : Assignment
  pub authority_from : Time
  pub authority_until : Time
  pub finalization_grace : Duration
  pub worker_id : String
  pub lease_generation : ℕ  -- uint64
  pub lease_until : Time
  pub evaluation_revision : ℕ  -- uint64

pub record ReplayCheckpoint : Type 0 where
  pub evaluation_revision : ℕ  -- uint64
  pub state_through_at : Time
  pub wal_id : String
  pub wal_sequence : ℕ  -- uint64
  pub frame_id : String
  pub state : EvaluatorState
