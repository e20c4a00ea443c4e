-- ===== src/Store.antt =====
-- The PostgreSQL store: internal/store/postgres/store.go.
pub mod Rows
pub mod Tables
pub mod Lifecycle
pub mod Leases
pub mod Commit
pub mod Write
pub mod Evaluations
pub mod Fencing
pub mod Monotone
pub mod Takeover
pub mod Outbox
pub mod Delivery
pub mod Sequence
pub mod InOrder
pub mod History
pub mod Keyset
pub mod Pages
pub mod Continues
pub mod Newest
pub mod Recorded
pub mod Once
pub mod Admits
pub mod Passes
pub mod Polling
pub mod Polled
