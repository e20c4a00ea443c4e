-- ===== src/Registry/Acknowledged.antt =====
-- What a delivery means: `publish` and `Flush` of internal/projection/registry/publisher.go on the
-- store's outbox.
use aero_arc_conformance.Prelude.{
  ◌≡◌, ◌≢◌, refl, ap, ◌∙◌, inl, inr, true, ◌==◌, nat_eq, string_eq, Option, none, some, String,
  Result, ok, err, arith, Bool-cases, ==→eq, Result-cases,
}
use aero_arc_conformance.Domain.Time.{Time}
use aero_arc_conformance.Store.Tables.{Tables, Codec}
use aero_arc_conformance.Store.Outbox.{OutboxClaim, mark_outbox_delivered, retry_outbox}
use aero_arc_conformance.Transport.Messages.{Timestamp}
use aero_arc_conformance.Registry.Publisher.{Config}
use aero_arc_conformance.Registry.Publish.{
  Summary, Client, acknowledges, summary_to_proto, schedule_retry, conclude, publish, completed,
}

-- The registry has answered with the claim's cursor, and the outbox with the delivery.
pub record Acknowledged (codec : Codec) (new_timestamp : Time → Timestamp) (client : Client)
    (now : Time) (s t : Tables) (c : OutboxClaim) : Type 0 where
  pub accepted : Summary
  pub answer :
      client.publish_conformance_summary (summary_to_proto new_timestamp c) ≡ ok (some accepted)
  pub same_assignment : accepted.assignment_id ≡ c.assignment.id
  pub same_generation : accepted.generation ≡ c.assignment.generation
  pub same_revision : accepted.evaluation_revision ≡ c.evaluation_revision
  pub same_evaluation : accepted.evaluation_id ≡ c.idempotency_key
  pub marked : mark_outbox_delivered now s c ≡ ok t

module _ (codec : Codec) (new_timestamp : Time → Timestamp) (client : Client) (config : Config)
    (now : Time) (s t : Tables) (c : OutboxClaim) where
  not_retried :
      (cause : String) → schedule_retry codec new_timestamp client config now s c cause ≢ (t, ok tt)
  unfolding schedule_retry
  not_retried cause h =
      elim (Result-cases
        (retry_outbox codec client.truncate now s c config.retry_delay (some cause))) [
          | inl (u, done) ↦ cc (rw done at h)
          | inr (e, failed) ↦ cc (rw failed at h)
        ]

  completed-marked :
      completed codec new_timestamp client config s (mark_outbox_delivered now s c) ≡ (t, ok tt)
      → mark_outbox_delivered now s c ≡ ok t
  completed-marked h = elim (Result-cases (mark_outbox_delivered now s c)) [
    | inl (u, done) ↦ done ∙ ap ok (ap (λ x. x.0) (rw done at h))
    | inr (e, failed) ↦ cc (rw failed at h)
  ]

  pub same_cursor :
      (sent accepted : Summary)
      → acknowledges sent (some accepted) ≡ true
      → (accepted.assignment_id ≡ sent.assignment_id)
        × (accepted.generation ≡ sent.generation)
        × (accepted.evaluation_revision ≡ sent.evaluation_revision)
        × (accepted.evaluation_id ≡ sent.evaluation_id)
  unfolding acknowledges
  same_cursor sent accepted h =
      let (a, g, r, e) = tests in (==→eq _ _ a, ==→eq _ _ g, ==→eq _ _ r, ==→eq _ _ e)
    where
      tests :
          ((accepted.assignment_id == sent.assignment_id) ≡ true)
          × ((accepted.generation == sent.generation) ≡ true)
          × ((accepted.evaluation_revision == sent.evaluation_revision) ≡ true)
          × ((accepted.evaluation_id == sent.evaluation_id) ≡ true)
      tests = ground arith

  conclude-Acknowledged :
      (answer : Result String (Option Summary))
      → client.publish_conformance_summary (summary_to_proto new_timestamp c) ≡ answer
      → conclude codec new_timestamp client config now s c (summary_to_proto new_timestamp c) answer
        ≡ (t, ok tt)
      → Acknowledged codec new_timestamp client now s t c
  unfolding conclude acknowledges summary_to_proto
  conclude-Acknowledged (err cause) asked h = absurd (not_retried cause h)
  conclude-Acknowledged (ok none) asked h = absurd (not_retried _ h)
  conclude-Acknowledged (ok (some accepted)) asked h =
      let sent = summary_to_proto new_timestamp c in
      elim (Bool-cases (acknowledges sent (some accepted))) [
        | inr differs ↦ absurd (not_retried _ (rw differs at h))
        | inl same ↦
            let (a, g, r, e) = same_cursor sent accepted same in
            record {
              accepted = accepted;
              answer = asked;
              same_assignment = a;
              same_generation = g;
              same_revision = r;
              same_evaluation = e;
              marked = completed-marked (rw same at h);
            }
      ]

-- A delivery without an error means that the registry has answered with a projection of exactly the
-- claim's assignment, generation, revision and evaluation, and that the outbox has recorded the
-- delivery under the claim's lease.
pub publish-Acknowledged :
    (codec : Codec) (new_timestamp : Time → Timestamp) (client : Client) (config : Config)
    (now : Time) (s t : Tables) (c : OutboxClaim)
    → publish codec new_timestamp client config now s c ≡ (t, ok tt)
    → Acknowledged codec new_timestamp client now s t c
unfolding publish
publish-Acknowledged codec new_timestamp client config now s t c h =
    conclude-Acknowledged codec new_timestamp client config now s t c
      (client.publish_conformance_summary (summary_to_proto new_timestamp c)) refl h
