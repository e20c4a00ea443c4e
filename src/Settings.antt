-- ===== src/Settings.antt =====
-- The configuration of the service: internal/config/config.go.
use aero_arc_conformance.Prelude.{
  ℕ, ℤ, pos, Bool, true, not, ◌&&◌, ◌||◌, ◌!=◌, string_eq, leb_ℤ, ltb_ℤ, String, is_blank, Result,
  fail_if, ◌>>◌, ◌*◌,
}
use aero_arc_conformance.Domain.Float.{Float64, is_nan, is_inf, float_le, zero_float}
use aero_arc_conformance.Domain.Time.{Duration}

pub record GrpcTls : Type 0 where
  pub certificate_file : String
  pub private_key_file : String
  pub client_ca_file : String

pub record Service : Type 0 where
  pub management_address : String
  pub grpc_address : String
  pub grpc_tls : GrpcTls
  pub shutdown_timeout : Duration

pub record Registry : Type 0 where
  pub address : String
  pub insecure : Bool
  pub publish_interval : Duration
  pub request_timeout : Duration
  pub lease_duration : Duration
  pub retry_delay : Duration
  pub batch_size : ℤ  -- int

pub record Influx : Type 0 where
  pub host : String
  pub token : String
  pub database : String
  pub poll_interval : Duration
  pub overlap_window : Duration
  pub settle_delay : Duration
  pub aircraft_batch_size : ℤ  -- int
  pub max_rows : ℤ  -- int

pub record Worker : Type 0 where
  pub id : String
  pub lease_duration : Duration
  pub renew_interval : Duration
  pub claim_batch_size : ℤ  -- int

pub record Policy : Type 0 where
  pub version : String
  pub horizontal_tolerance_m : Float64
  pub vertical_tolerance_m : Float64
  pub open_after_samples : ℤ  -- int
  pub recover_after_samples : ℤ  -- int
  pub telemetry_freshness : Duration

pub record Logging : Type 0 where
  pub level : String
  pub format : String

-- `postgres_url` is the one field of `Postgres`.
pub record Config : Type 0 where
  pub service : Service
  pub postgres_url : String
  pub influx : Influx
  pub registry : Registry
  pub worker : Worker
  pub policy : Policy
  pub logging : Logging

abbrev pub seconds : ℕ → Duration
seconds n = pos (n * 1000000000)

-- `Default()`: the fields that it does not set are zero values.
abbrev pub default : Config
default = record {
  service = record {
    management_address = ":2112";
    grpc_address = ":50052";
    grpc_tls = record { certificate_file = ""; private_key_file = ""; client_ca_file = "" };
    shutdown_timeout = seconds 15;
  };
  postgres_url = "";
  influx = record {
    host = "";
    token = "";
    database = "";
    poll_interval = seconds 1;
    overlap_window = seconds 30;
    settle_delay = seconds 2;
    aircraft_batch_size = pos 100;
    max_rows = pos 10000;
  };
  registry = record {
    address = "";
    insecure = true;
    publish_interval = seconds 1;
    request_timeout = seconds 3;
    lease_duration = seconds 10;
    retry_delay = seconds 5;
    batch_size = pos 20;
  };
  worker = record {
    id = "";
    lease_duration = seconds 30;
    renew_interval = seconds 10;
    claim_batch_size = pos 20;
  };
  policy = record {
    version = "standard-v1";
    horizontal_tolerance_m = record { bits = 0x4014000000000000 };
    vertical_tolerance_m = record { bits = 0x4008000000000000 };
    open_after_samples = pos 3;
    recover_after_samples = pos 3;
    telemetry_freshness = seconds 15;
  };
  logging = record { level = "info"; format = "json" };
}

pub data SettingsError : Type 0 where
  bad_service bad_tls bad_postgres bad_influx bad_registry bad_worker bad_policy bad_format :
      SettingsError
  bad_level : SettingsError

unfoldable pub finite_nonnegative : Float64 → Bool
finite_nonnegative value = not (is_nan value) && not (is_inf value) && float_le zero_float value

unfoldable pub validate : Config → Result SettingsError (Unit {0})
unfolding finite_nonnegative
validate c =
    fail_if
      (is_blank c.service.management_address
        || is_blank c.service.grpc_address
        || leb_ℤ c.service.shutdown_timeout (pos 0))
      bad_service
    >> fail_if
        (is_blank c.service.grpc_tls.certificate_file
          || is_blank c.service.grpc_tls.private_key_file
          || is_blank c.service.grpc_tls.client_ca_file)
        bad_tls
    >> fail_if (is_blank c.postgres_url) bad_postgres
    >> fail_if
        (is_blank c.influx.host
          || is_blank c.influx.database
          || leb_ℤ c.influx.poll_interval (pos 0)
          || leb_ℤ c.influx.overlap_window (pos 0)
          || ltb_ℤ c.influx.settle_delay (pos 0)
          || ltb_ℤ c.influx.aircraft_batch_size (pos 1)
          || ltb_ℤ c.influx.max_rows (pos 1))
        bad_influx
    >> fail_if
        (is_blank c.registry.address
          || leb_ℤ c.registry.publish_interval (pos 0)
          || leb_ℤ c.registry.request_timeout (pos 0)
          || leb_ℤ c.registry.lease_duration c.registry.request_timeout
          || leb_ℤ c.registry.retry_delay (pos 0)
          || ltb_ℤ c.registry.batch_size (pos 1))
        bad_registry
    >> fail_if
        (is_blank c.worker.id
          || leb_ℤ c.worker.lease_duration (pos 0)
          || leb_ℤ c.worker.renew_interval (pos 0)
          || leb_ℤ c.worker.lease_duration c.worker.renew_interval
          || ltb_ℤ c.worker.claim_batch_size (pos 1))
        bad_worker
    >> fail_if
        (is_blank c.policy.version
          || not (finite_nonnegative c.policy.horizontal_tolerance_m)
          || not (finite_nonnegative c.policy.vertical_tolerance_m)
          || ltb_ℤ c.policy.open_after_samples (pos 1)
          || ltb_ℤ c.policy.recover_after_samples (pos 1)
          || leb_ℤ c.policy.telemetry_freshness (pos 0))
        bad_policy
    >> fail_if (c.logging.format != "json" && c.logging.format != "text") bad_format
    >> fail_if
        (c.logging.level != "debug"
          && c.logging.level != "info"
          && c.logging.level != "warn"
          && c.logging.level != "error")
        bad_level
