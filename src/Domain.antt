-- ===== src/Domain.antt =====
-- internal/domain/types.go, with Go's time.Time and float64.
pub mod Time
pub mod Float
pub mod Types
pub mod Assignment
pub mod Incident
