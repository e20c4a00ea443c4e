-- ===== src/Service.antt =====
-- The service's construction: internal/conformance/conformance.go.
pub mod Wiring
pub mod Start
