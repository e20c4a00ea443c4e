-- ===== src/Scenarios/Polls.antt =====
-- A poll of the worker that evaluates the flight.
use aero_arc_conformance.Prelude.{◌+◌, false, none, List, [], ◌∷◌}
use aero_arc_conformance.Store.Polling.{Processing, PollInput, poll}
use aero_arc_conformance.Store.Polled.{Polls, poll-Polls}
use aero_arc_conformance.Worker.Claim.{Claim}
use aero_arc_conformance.Scenarios.Commands.{plain_codec}
use aero_arc_conformance.Scenarios.Flight.{takeoff}
use aero_arc_conformance.Scenarios.Leases.{nothing_locked, before_claims}
use aero_arc_conformance.Scenarios.Claims.{config, dependencies}

abbrev at_once : List Claim → List (Processing × Claim)
at_once [] = []
at_once (claim ∷ rest) =
    let p : Processing = record {
      dependencies = dependencies;
      now = takeoff + 60;
      database_now = takeoff + 61;
      interrupted = none;
    } in
    (p, claim) ∷ at_once rest

abbrev input : PollInput
input = record { is_done = false; order = at_once; now = takeoff + 50; locked = nothing_locked }

poll-Polls_example :
    Polls plain_codec config input before_claims
      (poll plain_codec config input before_claims).0
      (poll plain_codec config input before_claims).1
poll-Polls_example = poll-Polls plain_codec config input before_claims
