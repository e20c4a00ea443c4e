-- ===== src/Telemetry.antt =====
-- The telemetry reader: internal/telemetry/influx/reader.go.
pub mod Decode
pub mod Valid
pub mod Reader
pub mod Complete
