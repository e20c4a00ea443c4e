-- ===== src/Scenarios/Startup.antt =====
-- The service started with the default configuration, completed with what it requires.
use mathlib.Core.Path.{◌≡◌, refl}
use aero_arc_conformance.Prelude.{none, some, [], ok, is_blank}
use aero_arc_conformance.Service.Wiring.{Externals, new}
use aero_arc_conformance.Service.Start.{
  external_result, still_open, kept_by, new-validate, new-still_open,
}
use aero_arc_conformance.Domain.Float.{is_nan, is_inf, float_le}
use aero_arc_conformance.Settings as Settings

abbrev completed : Settings.Config
completed =
    let d = Settings.default in
    record d {
      service = record d.service {
        grpc_tls = record {
          certificate_file = "server.crt";
          private_key_file = "server.key";
          client_ca_file = "ca.crt";
        };
      };
      postgres_url = "postgres://localhost/conformance";
      influx = record d.influx { host = "https://influx"; token = "token"; database = "telemetry" };
      registry = record d.registry { address = "registry:50051" };
      worker = record d.worker { id = "worker-1" };
    }

abbrev no_connection : Externals
no_connection = record {
  credentials_error = none;
  store_error = none;
  client_error = none;
  connection_error = some "refused";
}

completed-validate : Settings.validate completed ≡ ok tt
unfolding Settings.validate Settings.finite_nonnegative is_blank is_nan is_inf float_le
completed-validate = refl

new-validate_example : (new no_connection completed).0 ≡ external_result no_connection
new-validate_example = new-validate no_connection completed completed-validate

new-still_open_example :
    still_open [] (new no_connection completed).1 ≡ kept_by (new no_connection completed).0
new-still_open_example = new-still_open no_connection completed
