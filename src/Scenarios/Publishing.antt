-- ===== src/Scenarios/Publishing.antt =====
-- The message of the flight's first evaluation, delivered to a registry that acknowledges it.
use mathlib.Core.Path.{◌≡◌, refl}
use aero_arc_conformance.Prelude.{◌+◌, pos, Bool, some, ok, is_blank}
use aero_arc_conformance.Domain.Time.{Time}
use aero_arc_conformance.Store.Tables.{Tables}
use aero_arc_conformance.Store.Outbox.{claim_outbox, mark_outbox_delivered}
use aero_arc_conformance.Transport.Messages.{Timestamp}
use aero_arc_conformance.Registry.Publisher.{Config}
use aero_arc_conformance.Registry.Publish.{Client, publish, summary_to_proto}
use aero_arc_conformance.Registry.Acknowledged.{Acknowledged, publish-Acknowledged}
use aero_arc_conformance.Registry.Confirmed.{Confirmed}
use aero_arc_conformance.Scenarios.Commands.{plain_codec}
use aero_arc_conformance.Scenarios.Flight.{takeoff}
use aero_arc_conformance.Scenarios.Leases.{publishing, message_claim}

abbrev valid_timestamp : Time → Timestamp
valid_timestamp t = record { is_valid = Bool.true; as_time = t }

abbrev acknowledging : Client
acknowledging = record {
  publish_conformance_summary = λ sent. ok (some sent);
  rejected = λ sent response. "rejected";
  truncate = λ text. text;
}

abbrev publisher : Config
publisher = record {
  worker_id = "publisher";
  poll_interval = pos 10;
  request_timeout = pos 3;
  lease_duration = pos 10;
  retry_delay = pos 5;
  batch_size = pos 5;
}

abbrev after_delivery : Tables
after_delivery =
    (publish plain_codec valid_timestamp acknowledging publisher (takeoff + 35) publishing.0
      message_claim).0

after_delivery-ok :
    publish plain_codec valid_timestamp acknowledging publisher
      (takeoff + 35)
      publishing.0
      message_claim
    ≡ (after_delivery, ok tt)
unfolding publish claim_outbox mark_outbox_delivered summary_to_proto is_blank
after_delivery-ok = refl

publish-Acknowledged_example :
    Acknowledged plain_codec valid_timestamp acknowledging
      (takeoff + 35)
      publishing.0
      after_delivery
      message_claim
publish-Acknowledged_example =
    publish-Acknowledged plain_codec valid_timestamp acknowledging publisher (takeoff + 35)
      publishing.0 after_delivery message_claim after_delivery-ok
