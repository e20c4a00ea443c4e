-- ===== src/Evaluator.antt =====
-- internal/evaluator/evaluator.go.
pub mod Policy
pub mod Advance
pub mod Geometry
pub mod Spatial
pub mod Evaluate
pub mod Batch
pub mod Samples
pub mod Hysteresis
pub mod Accepted
pub mod Occurrences
pub mod Replay
pub mod Conditions
pub mod NotEvaluated
pub mod Overrun
pub mod Causal
pub mod Window
