-- ===== src/Lib.antt =====
-- The conformance service of aero-arc-conformance: it follows the telemetry of an assigned flight,
-- opens and resolves incidents where the aircraft leaves its 4D volumes, and commits each evaluation
-- inside the half-open interval in which one assignment generation has authority.
--
-- The parts and how they interact. The store (internal/store/postgres/store.go) keeps the assignments,
-- their generations and their authority, and hands due ones to workers as claims. A worker
-- (internal/worker/evaluation.go) reads the checkpoint and the telemetry of its claim, picks the
-- evaluable suffix, has the engine (internal/evaluator/evaluator.go) evaluate it, and commits. The
-- store checks what is committed.
--
-- Prelude: tests, lists, texts, integers and Go's results with errors.
-- Domain: internal/domain/types.go. A time.Time is the number of nanoseconds since year 1, a Duration
--   an integer, UnixNano an int64 shifted by 2 ^ 63, a float64 its bit pattern. The map of incident
--   states is a record with a field for each violation.
-- Evaluator: internal/evaluator/evaluator.go. Policy has `Policy.Validate`, `New` and
--   `validateAssignment`; Geometry the distances; Spatial the evidence of `Evaluate`; Advance
--   `advance`; Evaluate the rest of `Evaluate` and `AssessMonitoring`; Batch `EvaluateBatch` and
--   `observationBefore`. The other children hold theorems.
-- Worker: internal/worker/evaluation.go. Claim has the configuration and the claims, Suffix
--   `evaluableSuffix` and `afterCheckpoint`, Split `readComplete`, Process `processClaim` with
--   `deferAfterError`. The other children hold theorems.
-- Store: internal/store/postgres/store.go. Rows and Tables have the tables and the shared queries;
--   Lifecycle/Prepare `PrepareAssignment`, Lifecycle/Commands `transitionCandidate`,
--   Lifecycle/Cutover `CutoverAssignment`, `ResolveAssignmentAt` and `GetAssignment`; Leases
--   `ClaimDueAssignments`, `DeferAssignmentEvaluation` and `RenewAssignmentLease`; Commit the guards
--   of an evaluation commit, Write `writeEvaluation`, Evaluations `CommitEvaluation`,
--   `CommitHistoricalEvaluation` and `GetReplayCheckpoint`; Outbox `ClaimOutbox`,
--   `MarkOutboxDelivered` and `RetryOutbox`. History has internal/store/postgres/history.go; Polling
--   `Run` and `Poll` of internal/worker/evaluation.go. The other children hold theorems.
-- Settings: the types, `Default` and `Validate` of internal/config/config.go.
-- Registry: internal/projection/registry/publisher.go. Publisher has `Config` and the test of `New`,
--   Publish `Flush` and what it calls. Acknowledged and Confirmed hold theorems.
-- Telemetry: internal/telemetry/influx/reader.go. Decode has `decodeObservation`, Reader
--   `ReadPositions`. The other children hold theorems.
-- Service: `New` of internal/conformance/conformance.go, with what it opens and closes, in Wiring.
-- Transport: internal/transport/grpc/assignment_handler.go. Messages has the messages, Convert the
--   conversions, Handler the RPCs; Reading has internal/transport/grpc/history_handler.go. The other
--   children hold theorems.
-- Scenarios: concrete flights, on which the theorems are applied.
--
-- Parameters. `Arithmetic` stands for the float operations that round and for package math,
-- `Dependencies` for what a claim calls (store, telemetry reader, engine) and for what the lease
-- renewal has reported, `Codec` for encoding/json, SHA-256, the equality of jsonb, the precision of
-- timestamptz and its sum with an interval, `Externals` for the errors of the packages that open
-- resources. `Tokens`, `Client`, `Runner` and `Conversions` stand for the codec of
-- history cursors, the clients of the Registry and of InfluxDB, and the conversions that round. The
-- clock of PostgreSQL, the rows that SKIP LOCKED passes over and timestamppb.New are
-- arguments.
--
-- Bounds and fuel. `read_complete` recurses on fuel; more fuel than the window has nanoseconds is
-- enough. Every other loop is structural. Counters of samples do not wrap. No timestamp lies before
-- year 1. A command is one step on the tables, since an advisory lock on the assignment serializes
-- them; the tables hold the columns that some query reads, and a command that fails leaves them.
--
-- Not modelled: the migrations of the store; the ticks of the renewal goroutine of the worker;
-- the timer of the publisher; the parsing of the configuration; logging, contexts and failures of the
-- database.
pub mod Prelude
pub mod Domain
pub mod Evaluator
pub mod Worker
pub mod Store
pub mod Scenarios
pub mod Settings
pub mod Registry
pub mod Service
pub mod Telemetry
pub mod Transport
