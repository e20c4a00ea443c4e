-- ===== src/Worker.antt =====
-- internal/worker/evaluation.go.
pub mod Claim
pub mod Suffix
pub mod Split
pub mod Wanted
pub mod Order
pub mod Resume
pub mod Frames
pub mod Complete
pub mod Process
pub mod Committed
pub mod Fenced
pub mod Decided
