-- ===== src/Store/Lifecycle.antt =====
-- The assignment commands of the store: internal/store/postgres/store.go.
pub mod Prepare
pub mod Commands
pub mod Cutover
pub mod History
pub mod Authority
pub mod Reachable
