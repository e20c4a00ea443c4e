-- ===== src/Service/Wiring.antt =====
-- How the service builds its parts and releases them again: `New` of
-- internal/conformance/conformance.go.
use Prim.Native.String.{◌++◌}
use aero_arc_conformance.Prelude.{
  pos, ◌||◌, ltb_ℤ, List, [], ◌∷◌, Option, none, some, String, is_blank, Result, ok, err,
  if◌then◌else◌,
}
use aero_arc_conformance.Settings as Settings
use aero_arc_conformance.Evaluator.Policy as Evaluator
use aero_arc_conformance.Worker.Claim as Worker
use aero_arc_conformance.Registry.Publisher as Publisher

pub data Resource : Type 0 where
  store reader registry_connection : Resource

pub data Event : Type 0 where
  opened closed : Resource → Event

pub data StartError : Type 0 where
  credentials_failed store_failed client_failed connection_failed : String → StartError
  reader_invalid handler_invalid : StartError
  publisher_invalid : Publisher.PublisherError → StartError
  engine_invalid : Evaluator.InvalidInput → StartError
  worker_invalid : Worker.ConfigError → StartError

-- The errors of the packages that open resources, where they fail.
pub record Externals : Type 0 where
  pub credentials_error : Option String
  pub store_error : Option String
  pub client_error : Option String
  pub connection_error : Option String

unfoldable pub publisher_config : Settings.Config → Publisher.Config
publisher_config c = record {
  worker_id = c.worker.id ++ ":registry";
  poll_interval = c.registry.publish_interval;
  request_timeout = c.registry.request_timeout;
  lease_duration = c.registry.lease_duration;
  retry_delay = c.registry.retry_delay;
  batch_size = c.registry.batch_size;
}

unfoldable pub engine_policy : Settings.Config → Evaluator.Policy
engine_policy c = record {
  version = c.policy.version;
  horizontal_tolerance_m = c.policy.horizontal_tolerance_m;
  vertical_tolerance_m = c.policy.vertical_tolerance_m;
  open_after_samples = c.policy.open_after_samples;
  recover_after_samples = c.policy.recover_after_samples;
  telemetry_freshness = c.policy.telemetry_freshness;
}

unfoldable pub worker_config : Settings.Config → Worker.Config
worker_config c = record {
  worker_id = c.worker.id;
  poll_interval = c.influx.poll_interval;
  lease_duration = c.worker.lease_duration;
  renew_interval = c.worker.renew_interval;
  settle_delay = c.influx.settle_delay;
  overlap_window = c.influx.overlap_window;
  claim_batch_size = c.worker.claim_batch_size;
}

abbrev pub Started : Type 0
Started = Result StartError (Unit {0}) × List Event

-- An error after which the resources are closed in this order.
abbrev pub stop : StartError → List Event → Started
stop e events = (err e, events)

abbrev pub opening : Resource → Started → Started
opening r (result, events) = (result, opened r ∷ events)

abbrev pub close_two : List Event
close_two = closed reader ∷ closed store ∷ []

abbrev pub close_three : List Event
close_three = closed registry_connection ∷ close_two

abbrev pub build_worker : Result Worker.ConfigError (Unit {0}) → Started
build_worker (err e) = stop (worker_invalid e) close_three
build_worker (ok u) = (ok tt, [])

abbrev pub build_engine :
    Result Evaluator.InvalidInput Evaluator.Evaluator
    → Result Worker.ConfigError (Unit {0})
    → Started
build_engine (err e) w = stop (engine_invalid e) close_three
build_engine (ok engine) w = build_worker w

abbrev pub build_publisher : Settings.Config → Result Publisher.PublisherError (Unit {0}) → Started
build_publisher c (err e) = stop (publisher_invalid e) close_three
build_publisher c (ok u) =
    build_engine (Evaluator.new (engine_policy c)) (Worker.validate (worker_config c))

abbrev pub connect : Settings.Config → Option String → Started
connect c (some e) = stop (connection_failed e) close_two
connect c none =
    opening registry_connection (build_publisher c (Publisher.validate (publisher_config c)))

-- NewAssignmentHandler wants a policy version.
abbrev pub build_handler : Externals → Settings.Config → Started
build_handler x c =
    if is_blank c.policy.version
    then stop handler_invalid close_two
    else connect c x.connection_error

-- influx.New and NewWithRunner. The client is open when NewWithRunner rejects the sizes.
abbrev pub open_reader : Externals → Settings.Config → Option String → Started
open_reader x c (some e) = stop (client_failed e) (closed store ∷ [])
open_reader x c none = opening reader (
    if ltb_ℤ c.influx.aircraft_batch_size (pos 1) || ltb_ℤ c.influx.max_rows (pos 1)
    then stop reader_invalid (closed store ∷ [])
    else build_handler x c)

abbrev pub open_store : Externals → Settings.Config → Option String → Started
open_store x c (some e) = stop (store_failed e) []
open_store x c none = opening store (open_reader x c x.client_error)

abbrev pub start : Externals → Settings.Config → Option String → Started
start x c (some e) = stop (credentials_failed e) []
start x c none = open_store x c x.store_error

-- The result, and what was opened and closed on the way.
unfoldable pub new : Externals → Settings.Config → Started
new x c = start x c x.credentials_error
