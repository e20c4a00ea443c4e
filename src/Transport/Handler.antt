-- ===== src/Transport/Handler.antt =====
-- The assignment RPCs: internal/transport/grpc/assignment_handler.go, on the store's commands.
use aero_arc_conformance.Prelude.{
  ℕ, Bool, not, ◌||◌, string_eq, if◌then◌else◌, Option, none, some, String, is_blank, Result, ok,
  err,
}
use aero_arc_conformance.Domain.Time.{Time, supported_unix_nanoseconds}
use aero_arc_conformance.Domain.Assignment.{Assignment, AssignmentRecord}
use aero_arc_conformance.Store.Tables.{
  ApplyDisposition, applied, idempotent, stale, Tables, Codec, StoreError,
}
use aero_arc_conformance.Store.Lifecycle.Prepare.{ApplyResult, prepare_assignment}
use aero_arc_conformance.Store.Lifecycle.Commands.{Target, LifecycleResult, transition_candidate}
use aero_arc_conformance.Store.Lifecycle.Cutover.{cutover_assignment, get_assignment}
use aero_arc_conformance.Transport.Messages.{
  Timestamp, RecordMessage, PrepareRequest, CommandRequest, Response,
}
use aero_arc_conformance.Transport.Convert.{
  ConvertError, assignment_from_proto, assignment_record_to_proto, valid_assignment_generation,
}

pub data Code : Type 0 where
  invalid_argument not_found already_exists failed_precondition internal unavailable : Code

abbrev pub assignment_status_error : StoreError → Code
assignment_status_error StoreError.assignment_not_found = not_found
assignment_status_error StoreError.message_conflict = already_exists
assignment_status_error StoreError.stale_assignment = failed_precondition
assignment_status_error StoreError.invalid_transition = failed_precondition
assignment_status_error _ = internal

pub record AssignmentHandler : Type 0 where
  pub policy_version : String

pub data HandlerError : Type 0 where
  invalid_handler : HandlerError

unfoldable pub new : String → Result HandlerError AssignmentHandler
new policy_version =
    if is_blank policy_version
    then err invalid_handler
    else ok (record { policy_version = policy_version })

-- What an RPC answers, and the tables that it leaves.
abbrev pub Answer : Type 0
Answer = Result Code Response × Tables

-- The tables of a store call that fails are the ones before it.
abbrev pub refused : Code → Tables → Answer
refused code s = (err code, s)

module _ (codec : Codec) (new_timestamp : Time → Timestamp) (handler : AssignmentHandler)
    (now : Time) (s : Tables) where
  abbrev pub shown : AssignmentRecord → Option RecordMessage
  shown r = some (assignment_record_to_proto new_timestamp r)

  -- The reconciliation read after a candidate that was not stale.
  abbrev pub reconciled : ApplyDisposition → Result StoreError AssignmentRecord → Tables → Answer
  reconciled d (err e) t = (err (assignment_status_error e), t)
  reconciled d (ok r) t = (ok (record { disposition = d; assignment = shown r }), t)

  abbrev pub answer_stored : ApplyDisposition → Assignment → Tables → Answer
  answer_stored stale a t = (ok (record { disposition = stale; assignment = none }), t)
  answer_stored applied a t = reconciled applied (get_assignment t a.id a.generation) t
  answer_stored idempotent a t = reconciled idempotent (get_assignment t a.id a.generation) t

  abbrev pub answer_prepared : Result StoreError (ApplyResult × Tables) → Answer
  answer_prepared (err e) = refused (assignment_status_error e) s
  answer_prepared (ok (r, t)) = answer_stored r.disposition r.assignment t

  abbrev pub prepare_converted : PrepareRequest → Result ConvertError Assignment → Answer
  prepare_converted request (err e) = refused invalid_argument s
  prepare_converted request (ok a) = answer_prepared (
      prepare_assignment codec now s (record {
        source = request.source;
        message_id = request.message_id;
        message_type = "assignment_prepared";
        assignment = a;
      }))

  unfoldable pub handle_prepare : PrepareRequest → Answer
  handle_prepare request =
      if is_blank request.source || is_blank request.message_id
      then refused invalid_argument s
      else prepare_converted request
          (assignment_from_proto request.assignment handler.policy_version)

  -- The guard of the three lifecycle commands.
  unfoldable pub is_invalid_request : CommandRequest → Bool
  is_invalid_request request =
      is_blank request.source
      || is_blank request.message_id
      || is_blank request.assignment_id
      || not (valid_assignment_generation request.assignment_generation)

  abbrev pub answer_command : Result StoreError (LifecycleResult × Tables) → Answer
  answer_command (err e) = refused (assignment_status_error e) s
  answer_command (ok (r, t)) =
      (ok (record { disposition = r.disposition; assignment = shown r.found }), t)

  -- ArmAssignment and CancelAssignmentCandidate.
  unfoldable pub handle_candidate : Target → CommandRequest → Answer
  unfolding is_invalid_request
  handle_candidate target request =
      if is_invalid_request request
      then refused invalid_argument s
      else answer_command (
          transition_candidate codec now s target request.source request.message_id
            request.assignment_id request.assignment_generation)

  abbrev pub cutover_at : CommandRequest → Time → Answer
  cutover_at request effective_at = answer_command (
      cutover_assignment codec now s request.source request.message_id request.assignment_id
        request.assignment_generation effective_at)

  abbrev pub cutover_checked : CommandRequest → Option Timestamp → Answer
  cutover_checked request none = refused invalid_argument s
  cutover_checked request (some t) =
      if not t.is_valid || not (supported_unix_nanoseconds t.as_time)
      then refused invalid_argument s
      else cutover_at request t.as_time

  unfoldable pub handle_cutover : CommandRequest → Answer
  unfolding is_invalid_request
  handle_cutover request =
      if is_invalid_request request
      then refused invalid_argument s
      else cutover_checked request request.effective_at

  abbrev pub answer_record : Result StoreError AssignmentRecord → Result Code RecordMessage
  answer_record (err e) = err (assignment_status_error e)
  answer_record (ok r) = ok (assignment_record_to_proto new_timestamp r)

  unfoldable pub handle_get : String → ℕ → Result Code RecordMessage
  handle_get id generation =
      if is_blank id || not (valid_assignment_generation generation)
      then err invalid_argument
      else answer_record (get_assignment s id generation)
