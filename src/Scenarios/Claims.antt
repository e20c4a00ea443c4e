-- ===== src/Scenarios/Claims.antt =====
-- A claim of the scenarios' flight, from the read to the guards of its commit.
use mathlib.Core.List.{Perm}
use mathlib.Core.Path.{◌≡◌, refl}
use aero_arc_conformance.Prelude.{
  ◌+◌, ◌-◌, ◌≢◌, ltb, pos, true, false, inl, inr, Bool-cases, none, some, List, [], ◌∷◌, Result, ok,
  err, arith, if◌then◌else◌, keep_if,
}
use aero_arc_conformance.Domain.Time.{Time, sub, add, unix_nano, supported_unix_nanoseconds}
use aero_arc_conformance.Domain.Float.{float_lt, is_inf, float_le}
use aero_arc_conformance.Evaluator.Policy.{validate_assignment, identity_differs}
use aero_arc_conformance.Domain.Assignment.{Observation}
use aero_arc_conformance.Domain.Incident.{Evaluation, empty_state}
use aero_arc_conformance.Evaluator.Batch.{batch_loop, observation_before, evaluate_batch}
use aero_arc_conformance.Evaluator.Evaluate.{evaluate, evaluation_of}
use aero_arc_conformance.Domain.Types.{ViolationType}
use aero_arc_conformance.Evaluator.Causal.{SoundState, empty-Sound}
use aero_arc_conformance.Worker.Claim.{
  Config, Claim, ReplayCheckpoint, WorkerError, window_saturated,
}
use aero_arc_conformance.Worker.Suffix.{is_evaluable, after_checkpoint, evaluable_suffix}
use aero_arc_conformance.Worker.Wanted.{is_evaluable-IsWanted, IsWanted-is_evaluable}
use aero_arc_conformance.Worker.Order.{
  IsOrdered, SameKey, observation_before_total, evaluable_suffix_lem,
}
use aero_arc_conformance.Worker.Resume.{
  TakenAt, after_checkpoint-observation_before, evaluable_suffix-checkpoint,
}
use aero_arc_conformance.Worker.Split.{
  ReadResult, deduplicate, read_complete, middle_of, joined, out_of_fuel,
}
use aero_arc_conformance.Worker.Complete.{
  ReadsWindows, in_window, read_complete_total, read_complete_window,
}
use aero_arc_conformance.Worker.Process.{
  Dependencies, Decision, commit, process_claim, evaluation_assignment,
}
use aero_arc_conformance.Worker.Fenced.{Fenced, process_claim-Fenced}
use aero_arc_conformance.Store.Commit.{
  validate_evaluation_within_authority, compare_evaluation_cursor, Sign,
}
use aero_arc_conformance.Store.Admits.{
  Fenced-validate_evaluation_within_authority, Fenced-compare_evaluation_cursor,
}
use aero_arc_conformance.Scenarios.Flight.{
  first_operand, flight_policy, flight, takeoff, first_frame, second_frame, third_frame,
}

abbrev telemetry : List Observation
telemetry = first_frame ∷ second_frame ∷ third_frame ∷ []

-- A reader that holds at most 30 nanoseconds.
abbrev narrow_read : Time → Time → Result WorkerError ReadResult
narrow_read start end =
    if ltb 30 (end - start)
    then err window_saturated
    else ok (record {
      observations = deduplicate [] (keep_if (in_window start end) telemetry);
      rejections = [];
    })

narrow_read-faithful :
    (start end : Time) (r : ReadResult)
    → narrow_read start end ≡ ok r
    → r.observations ≡ deduplicate [] (keep_if (in_window start end) telemetry)
narrow_read-faithful start end r h = elim (Bool-cases (ltb 30 (end - start))) [
  | inl wide ↦ cc (rw wide at h)
  | inr narrow ↦ cc (rw narrow at h)
]

narrow_read-ReadsWindows : ReadsWindows narrow_read telemetry
narrow_read-ReadsWindows = record {
  rising = (omega arith, (omega arith, (omega arith, tt)));
  faithful = narrow_read-faithful;
}

abbrev whole : ReadResult
whole = record { observations = telemetry; rejections = [] }

read_complete_total_example :
    read_complete narrow_read 200 takeoff (takeoff + 100) ≢ err out_of_fuel
read_complete_total_example =
    read_complete_total narrow_read 200 takeoff (takeoff + 100) (omega arith)

read_complete_window_example :
    whole.observations ≡ deduplicate [] (keep_if (in_window takeoff (takeoff + 100)) telemetry)
unfolding read_complete middle_of joined deduplicate sub
read_complete_window_example =
    read_complete_window narrow_read telemetry narrow_read-ReadsWindows 10 takeoff (takeoff + 100)
      whole refl

abbrev claim : Claim
claim = record {
  assignment = flight;
  authority_from = takeoff;
  authority_until = takeoff + 100;
  finalization_grace = pos 10;
  worker_id = "worker";
  lease_generation = 1;
  lease_until = takeoff + 500;
  evaluation_revision = 0;
}

abbrev pub config : Config
config = record {
  worker_id = "worker";
  poll_interval = pos 7;
  lease_duration = pos 30;
  renew_interval = pos 10;
  settle_delay = pos 5;
  overlap_window = pos 20;
  claim_batch_size = pos 1;
}

abbrev pub dependencies : Dependencies
dependencies = record {
  get_replay_checkpoint = λ end. ok none;
  read_complete = λ start end. ok whole;
  evaluate_batch = evaluate_batch first_operand flight_policy;
  renewal_error = none;
}

abbrev committed_evaluation : Decision → Evaluation
committed_evaluation (commit e next) = e
committed_evaluation _ = evaluation_of first_operand flight_policy flight first_frame empty_state

abbrev evaluation : Evaluation
evaluation = committed_evaluation (process_claim config dependencies claim (takeoff + 200))

claim-commits :
    process_claim config dependencies claim (takeoff + 200) ≡ commit evaluation (takeoff + 207)
unfolding process_claim evaluable_suffix after_checkpoint observation_before evaluate_batch evaluate
    validate_assignment evaluation_assignment float_lt is_inf float_le identity_differs batch_loop
claim-commits = refl

process_claim-Fenced_example :
    Fenced claim none evaluation
    × (dependencies.renewal_error ≡ none)
    × (takeoff + 207 ≡ add (takeoff + 200) config.poll_interval)
process_claim-Fenced_example =
    process_claim-Fenced first_operand flight_policy config dependencies claim (takeoff + 200) none
      evaluation (takeoff + 207) refl refl tt claim-commits

evaluation-Fenced : Fenced claim none evaluation
evaluation-Fenced =
    (process_claim-Fenced first_operand flight_policy config dependencies claim (takeoff + 200) none
      evaluation (takeoff + 207) refl refl tt claim-commits).0

Fenced-validate_evaluation_within_authority_example :
    validate_evaluation_within_authority evaluation (unix_nano takeoff) (unix_nano (takeoff + 100))
    ≡ ok tt
unfolding supported_unix_nanoseconds
Fenced-validate_evaluation_within_authority_example =
    Fenced-validate_evaluation_within_authority claim none evaluation refl refl evaluation-Fenced

-- A checkpoint at the first frame.
abbrev pub checkpoint : ReplayCheckpoint
checkpoint = record {
  evaluation_revision = 1;
  state_through_at = takeoff + 10;
  wal_id = "wal";
  wal_sequence = 1;
  frame_id = "f1";
  state = empty_state;
}

abbrev pub resumed : Claim
resumed = record claim { evaluation_revision = 1 }

abbrev resumed_dependencies : Dependencies
resumed_dependencies = record dependencies { get_replay_checkpoint = λ end. ok (some checkpoint) }

abbrev pub resumed_evaluation : Evaluation
resumed_evaluation =
    committed_evaluation (process_claim config resumed_dependencies resumed (takeoff + 200))

resumed-commits :
    process_claim config resumed_dependencies resumed (takeoff + 200)
    ≡ commit resumed_evaluation (takeoff + 207)
unfolding process_claim evaluable_suffix after_checkpoint observation_before evaluate_batch evaluate
    validate_assignment evaluation_assignment float_lt is_inf float_le identity_differs batch_loop
resumed-commits = refl

empty-SoundState : SoundState takeoff (takeoff + 10) empty_state
empty-SoundState ViolationType.lateral = empty-Sound _ _
empty-SoundState ViolationType.vertical = empty-Sound _ _
empty-SoundState ViolationType.temporal = empty-Sound _ _
empty-SoundState ViolationType.telemetry_loss = empty-Sound _ _

pub resumed-Fenced : Fenced resumed (some checkpoint) resumed_evaluation
resumed-Fenced =
    (process_claim-Fenced first_operand flight_policy config resumed_dependencies resumed
      (takeoff + 200) (some checkpoint) resumed_evaluation (takeoff + 207) refl refl
      empty-SoundState resumed-commits).0

Fenced-compare_evaluation_cursor_example :
    compare_evaluation_cursor resumed_evaluation (unix_nano (takeoff + 10)) "wal" 1 "f1"
    ≡ Sign.greater
unfolding supported_unix_nanoseconds process_claim evaluable_suffix after_checkpoint
    observation_before evaluate_batch evaluate validate_assignment evaluation_assignment float_lt
    is_inf float_le identity_differs batch_loop evaluation_of
Fenced-compare_evaluation_cursor_example =
    Fenced-compare_evaluation_cursor resumed checkpoint resumed_evaluation refl refl resumed-Fenced

first_frame-TakenAt : TakenAt first_frame checkpoint
first_frame-TakenAt = record {
  same_time = refl;
  same_wal = refl;
  same_sequence = refl;
  same_frame = refl;
}

after_checkpoint-observation_before_example :
    after_checkpoint second_frame checkpoint ≡ observation_before first_frame second_frame
after_checkpoint-observation_before_example =
    after_checkpoint-observation_before second_frame first_frame checkpoint first_frame-TakenAt refl

evaluable_suffix-checkpoint_example :
    (evaluable_suffix telemetry resumed (some checkpoint)
      ≡ keep_if (observation_before first_frame) (evaluable_suffix telemetry resumed none))
    × (is_evaluable resumed (some checkpoint) first_frame ≡ false)
evaluable_suffix-checkpoint_example =
    evaluable_suffix-checkpoint telemetry resumed checkpoint first_frame first_frame-TakenAt refl

abbrev shuffled : List Observation
shuffled = third_frame ∷ first_frame ∷ second_frame ∷ []

evaluable_suffix_lem_example :
    Perm (evaluable_suffix shuffled claim none) (keep_if (is_evaluable claim none) shuffled)
    × IsOrdered (evaluable_suffix shuffled claim none)
evaluable_suffix_lem_example =
    evaluable_suffix_lem shuffled claim none (is_evaluable claim none)
      (is_evaluable-IsWanted claim none) (IsWanted-is_evaluable claim none)

observation_before_total_example :
    (observation_before first_frame first_frame ≡ false)
    × (observation_before first_frame second_frame ≡ true
        → observation_before second_frame third_frame ≡ true
        → observation_before first_frame third_frame ≡ true)
    × (observation_before first_frame second_frame ≡ false
        → observation_before second_frame first_frame ≡ false
        → SameKey first_frame second_frame)
observation_before_total_example = observation_before_total first_frame second_frame third_frame
