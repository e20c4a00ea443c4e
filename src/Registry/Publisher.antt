-- ===== src/Registry/Publisher.antt =====
-- The publisher's configuration: `Config` and `New` of internal/projection/registry/publisher.go.
use aero_arc_conformance.Prelude.{
  ℤ, pos, ◌||◌, ◌==◌, string_eq, leb_ℤ, ltb_ℤ, String, Result, fail_if,
}
use aero_arc_conformance.Domain.Time.{Duration}

pub record Config : Type 0 where
  pub worker_id : String
  pub poll_interval : Duration
  pub request_timeout : Duration
  pub lease_duration : Duration
  pub retry_delay : Duration
  pub batch_size : ℤ  -- int

pub data PublisherError : Type 0 where
  invalid_publisher : PublisherError

-- The tests of `New` on the configuration.
unfoldable pub validate : Config → Result PublisherError (Unit {0})
validate c =
    fail_if
      (c.worker_id == ""
        || leb_ℤ c.poll_interval (pos 0)
        || leb_ℤ c.request_timeout (pos 0)
        || leb_ℤ c.lease_duration c.request_timeout
        || leb_ℤ c.retry_delay (pos 0)
        || ltb_ℤ c.batch_size (pos 1))
      invalid_publisher
