-- ===== src/Registry/Confirmed.antt =====
-- What the outbox holds as delivered: `Flush` of internal/projection/registry/publisher.go on the store's
-- outbox.
use mathlib.Core.List.{Memᴰ}
use aero_arc_conformance.Prelude.{◌≡◌, ◌≢◌, nat_eq, string_eq, none, some, List, String, ok}
use aero_arc_conformance.Domain.Time.{Time}
use aero_arc_conformance.Store.Tables.{Tables, OutboxRow}
use aero_arc_conformance.Store.Outbox.{OutboxClaim}
use aero_arc_conformance.Transport.Messages.{Timestamp}
use aero_arc_conformance.Registry.Publish.{Summary, Client, summary_to_proto}

-- A message with the identity had a time of delivery.
abbrev pub WasDelivered : List OutboxRow → String → Type 0
WasDelivered rows id =
    (o : OutboxRow) × Memᴰ o rows × (o.outbox_id ≡ id) × (o.delivery.delivered_at ≢ none)

-- The registry has answered to a message with the identity with exactly its cursor.
pub record Confirmed (new_timestamp : Time → Timestamp) (client : Client) (id : String)
    : Type 0 where
  pub claim : OutboxClaim
  pub accepted : Summary
  pub same_message : claim.id ≡ id
  pub answer :
      client.publish_conformance_summary (summary_to_proto new_timestamp claim) ≡ ok (some accepted)
  pub same_assignment : accepted.assignment_id ≡ claim.assignment.id
  pub same_generation : accepted.generation ≡ claim.assignment.generation
  pub same_revision : accepted.evaluation_revision ≡ claim.evaluation_revision
  pub same_evaluation : accepted.evaluation_id ≡ claim.idempotency_key

module _ (P : String → Type 0) where
  -- Every delivered message has an identity of which `P` holds.
  abbrev pub IsAccounted : OutboxRow → Type 0
  IsAccounted o = o.delivery.delivered_at ≢ none → P o.outbox_id
