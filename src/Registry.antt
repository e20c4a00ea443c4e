-- ===== src/Registry.antt =====
-- The Registry publisher: internal/projection/registry/publisher.go.
pub mod Publisher
pub mod Publish
pub mod Acknowledged
pub mod Confirmed
