-- ===== src/Scenarios/Commands.antt =====
-- The commands of one assignment: prepared, armed and cut over.
use mathlib.Core.Path.{◌≡◌, refl}
use aero_arc_conformance.Prelude.{◌+◌, true, some, [], Result, ok, err, is_blank}
use aero_arc_conformance.Domain.Time.{add, supported_unix_nanoseconds}
use aero_arc_conformance.Store.Tables.{
  Tables, Codec, stale, record_of, find_inbox, latest, read_assignment_record,
}
use aero_arc_conformance.Store.Lifecycle.Prepare.{
  ApplyResult, Envelope, prepare_assignment, candidate_row,
}
use aero_arc_conformance.Store.Lifecycle.Commands.{arm, LifecycleResult, transition_candidate}
use aero_arc_conformance.Store.Lifecycle.Cutover.{cutover_assignment}
use aero_arc_conformance.Store.Lifecycle.History.{is_history}
use aero_arc_conformance.Store.Lifecycle.Authority.{IsConsistent}
use aero_arc_conformance.Store.Lifecycle.Reachable.{
  prepared, transitioned, cut, start, after_step, Reachable-IsConsistent,
}
use aero_arc_conformance.Scenarios.Flight.{flight, takeoff}

-- Codecs that keep the message type, which is enough for one assignment.
abbrev pub plain_codec : Codec
plain_codec = record {
  marshal_assignment = λ message_type a. some a.id;
  marshal_command = λ message_type c. some message_type;
  sha256_hex = λ text. text;
  sprint = λ n. "n";
  frame_part = λ text. text;
  same_json = λ a b. true;
  timestamptz = λ t. t;
  marshal_evaluation = λ e. some e.frame_id;
  marshal_state = λ state. some "state";
  marshal_evidence = λ id t. some t.frame_id;
  plus_interval = add;
}

abbrev pub no_tables : Tables
no_tables = record {
  assignments = [];
  inbox = [];
  transitions = [];
  outbox = [];
  summaries = [];
  checkpoints = [];
  incidents = [];
  events = [];
}

-- What a command returns.
abbrev pub outcome_or {ℓ} : {A E : Type ℓ} → A → Result E A → A
outcome_or a (ok r) = r
outcome_or a (err e) = a

abbrev message : Envelope
message = record {
  source = "api";
  message_id = "m1";
  message_type = "assignment_prepared";
  assignment = flight;
}

abbrev after_prepare : ApplyResult × Tables
after_prepare =
    outcome_or (record { disposition = stale; assignment = flight }, no_tables)
      (prepare_assignment plain_codec takeoff no_tables message)

abbrev nothing : Tables → LifecycleResult × Tables
nothing s = (record { disposition = stale; found = record_of (candidate_row takeoff flight) }, s)

abbrev after_arm : LifecycleResult × Tables
after_arm =
    outcome_or (nothing after_prepare.1) (
      transition_candidate plain_codec (takeoff + 10) after_prepare.1 arm "api" "m2" "assignment" 1)

abbrev after_cutover : LifecycleResult × Tables
after_cutover = outcome_or (nothing after_arm.1) (
    cutover_assignment plain_codec (takeoff + 30) after_arm.1 "api" "m3" "assignment" 1
      (takeoff + 20))

prepare-ok : prepare_assignment plain_codec takeoff no_tables message ≡ ok after_prepare
unfolding prepare_assignment is_blank supported_unix_nanoseconds find_inbox latest
    read_assignment_record record_of
prepare-ok = refl

arm-ok :
    transition_candidate plain_codec (takeoff + 10) after_prepare.1 arm "api" "m2" "assignment" 1
    ≡ ok after_arm
unfolding prepare_assignment transition_candidate is_blank supported_unix_nanoseconds find_inbox
    latest read_assignment_record record_of
arm-ok = refl

cutover-ok :
    cutover_assignment plain_codec
      (takeoff + 30)
      after_arm.1
      "api"
      "m3"
      "assignment"
      1
      (takeoff + 20)
    ≡ ok after_cutover
unfolding prepare_assignment transition_candidate cutover_assignment is_blank
    supported_unix_nanoseconds find_inbox latest read_assignment_record record_of
cutover-ok = refl

no_tables-IsConsistent : IsConsistent no_tables
unfolding is_history
no_tables-IsConsistent id = refl

Reachable-IsConsistent_example : IsConsistent after_cutover.1
Reachable-IsConsistent_example =
    Reachable-IsConsistent plain_codec no_tables after_cutover.1
      (after_step
        (after_step (after_step start (prepared takeoff message after_prepare.0 prepare-ok))
          (transitioned (takeoff + 10) arm "api" "m2" "assignment" 1 after_arm.0 arm-ok))
        (cut (takeoff + 30) "api" "m3" "assignment" 1 (takeoff + 20) after_cutover.0 cutover-ok))
      no_tables-IsConsistent
