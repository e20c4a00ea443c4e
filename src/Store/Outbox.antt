-- ===== src/Store/Outbox.antt =====
-- The outbox: `ClaimOutbox`, `MarkOutboxDelivered` and `RetryOutbox` of
-- internal/store/postgres/store.go. `now` is the clock of PostgreSQL in the statement.
use aero_arc_conformance.Prelude.{
  ℕ, ℤ, pos, suc, Bool, true, false, not, ◌&&◌, ◌||◌, ◌==◌, ◌!=◌, nat_eq, string_eq, str_lt, ltb,
  leb, ltb_ℤ, leb_ℤ, pos_part, if◌then◌else◌, Option, none, some, List, [], ◌∷◌, String, is_blank,
  Result, ok, err, ◌>>=◌, ◌>>◌, fail_if, keep_if, any_of,
}
use aero_arc_conformance.Domain.Time.{Time, Duration}
use aero_arc_conformance.Domain.Assignment.{Assignment}
use aero_arc_conformance.Domain.Incident.{Evaluation}
use aero_arc_conformance.Store.Rows.{Delivery}
use aero_arc_conformance.Store.Tables.{
  Row, Tables, Codec, StoreError, OutboxRow, Payload, evaluated, has_key, first,
}
use aero_arc_conformance.Store.Leases.{holds_for, count_where, limited}

pub record OutboxClaim : Type 0 where
  pub id : String
  pub destination : String
  pub idempotency_key : String
  pub assignment : Assignment
  pub evaluation_revision : ℕ  -- uint64
  pub evaluation : Evaluation
  pub worker_id : String
  pub lease_generation : ℕ  -- uint64
  pub lease_until : Option Time
  pub attempt_count : ℕ  -- uint32

abbrev pub is_missing_time : Option Time → Bool
is_missing_time none = true
is_missing_time (some t) = false

-- delivered_at IS NULL.
abbrev pub is_undelivered : OutboxRow → Bool
is_undelivered o = is_missing_time o.delivery.delivered_at

-- The order of (assignment_generation, evaluation_revision).
abbrev pub cursor_lt : OutboxRow → OutboxRow → Bool
cursor_lt o p =
    ltb o.generation p.generation
    || (o.generation == p.generation && ltb o.evaluation_revision p.evaluation_revision)

-- A message of the same destination and assignment that is to be delivered before the candidate.
unfoldable pub is_ahead : OutboxRow → OutboxRow → Bool
is_ahead candidate earlier =
    earlier.destination == candidate.destination
    && earlier.assignment_id == candidate.assignment_id
    && is_undelivered earlier
    && cursor_lt earlier candidate

abbrev lease_is_free : Time → Option Time → Bool
lease_is_free now none = true
lease_is_free now (some until) = ltb until now

-- The rows that `due` selects. `locked` are those that another transaction holds.
unfoldable pub is_due_message :
    String → Time → (OutboxRow → Bool) → List OutboxRow → OutboxRow → Bool
unfolding is_ahead
is_due_message destination now locked rows o =
    o.destination == destination
    && is_undelivered o
    && leb o.delivery.next_attempt_at now
    && lease_is_free now o.delivery.lease_until
    && (o.destination != "registry" || not (any_of (is_ahead o) rows))
    && not (locked o)

-- ORDER BY next_attempt_at, outbox_id.
abbrev attempt_before : OutboxRow → OutboxRow → Bool
attempt_before o p =
    ltb o.delivery.next_attempt_at p.delivery.next_attempt_at
    || (o.delivery.next_attempt_at == p.delivery.next_attempt_at && str_lt o.outbox_id p.outbox_id)

module _ {A : Type 0} (precedes : A → A → Bool) where
  unfoldable pub insert_by : A → List A → List A
  insert_by x [] = x ∷ []
  insert_by x (y ∷ ys) = let rest = insert_by x ys in if precedes y x then y ∷ rest else x ∷ y ∷ ys

  unfoldable pub sort_by : List A → List A
  unfolding insert_by
  sort_by [] = []
  sort_by (x ∷ xs) = insert_by x (sort_by xs)

unfoldable pub due_messages :
    String → Time → (OutboxRow → Bool) → ℕ → List OutboxRow → List OutboxRow
unfolding is_due_message sort_by
due_messages destination now locked limit rows =
    limited limit
      (sort_by attempt_before (keep_if (is_due_message destination now locked rows) rows))

abbrev pub update_messages :
    (OutboxRow → Bool) → (OutboxRow → OutboxRow) → List OutboxRow → List OutboxRow
update_messages p f [] = []
update_messages p f (o ∷ os) = (if p o then f o else o) ∷ update_messages p f os

abbrev pub same_id : OutboxRow → OutboxRow → Bool
same_id o d = d.outbox_id == o.outbox_id

-- json.Unmarshal of the payload into an evaluation; `decode_other` is what it makes of another
-- document.
abbrev decode_evaluation :
    (Payload → Result StoreError Evaluation) → Payload → Result StoreError Evaluation
decode_evaluation decode_other (evaluated e) = ok e
decode_evaluation decode_other p = decode_other p

module _ (codec : Codec) (now : Time) (decode_other : Payload → Result StoreError Evaluation) where
  abbrev pub leased_message : String → Duration → OutboxRow → OutboxRow
  leased_message worker_id lease o = record o {
    delivery = record o.delivery {
      lease_owner = some worker_id;
      lease_generation = suc o.delivery.lease_generation;
      lease_until = some (codec.plus_interval now lease);
      attempt_count = suc o.delivery.attempt_count;
    };
  }

  unfoldable pub outbox_claim_of : String → OutboxRow → Row → Result StoreError OutboxClaim
  outbox_claim_of worker_id o r = decode_evaluation decode_other o.payload >>= λ e. ok (record {
    id = o.outbox_id;
    destination = o.destination;
    idempotency_key = o.idempotency_key;
    assignment = r.assignment;
    evaluation_revision = o.evaluation_revision;
    evaluation = e;
    worker_id = worker_id;
    lease_generation = o.delivery.lease_generation;
    lease_until = o.delivery.lease_until;
    attempt_count = o.delivery.attempt_count;
  })

  -- The join with the assignment of the message; a message without one is not returned.
  abbrev pub join_claim :
      String
      → OutboxRow
      → Option Row
      → Result StoreError (List OutboxClaim)
      → Result StoreError (List OutboxClaim)
  join_claim worker_id o none rest = rest
  join_claim worker_id o (some r) rest =
      outbox_claim_of worker_id o r >>= λ c. rest >>= λ cs. ok (c ∷ cs)

  unfoldable pub scan_messages :
      String → List Row → List OutboxRow → Result StoreError (List OutboxClaim)
  unfolding outbox_claim_of
  scan_messages worker_id rows [] = ok []
  scan_messages worker_id rows (o ∷ os) =
      join_claim worker_id o (first (has_key o.assignment_id o.generation) rows)
        (scan_messages worker_id rows os)

  abbrev id_before : OutboxRow → OutboxRow → Bool
  id_before o p = str_lt o.outbox_id p.outbox_id

  abbrev pub claim_messages :
      String → Duration → List OutboxRow → Tables → Tables × Result StoreError (List OutboxClaim)
  claim_messages worker_id lease due s =
      let claimed = λ (o : OutboxRow). any_of (same_id o) due in
      let rows = update_messages claimed (leased_message worker_id lease) s.outbox in
      (
        record s { outbox = rows },
        scan_messages worker_id s.assignments (sort_by id_before (keep_if claimed rows)),
      )

  -- The statement has taken the leases when a row fails to decode.
  unfoldable pub claim_outbox :
      (OutboxRow → Bool)
      → Tables
      → String
      → String
      → Duration
      → ℤ
      → Tables × Result StoreError (List OutboxClaim)
  unfolding due_messages scan_messages sort_by
  claim_outbox locked s destination worker_id lease limit =
      if is_blank destination || is_blank worker_id || leb_ℤ lease (pos 0) || ltb_ℤ limit (pos 1)
      then (s, err StoreError.invalid_arguments)
      else claim_messages worker_id lease
          (due_messages destination now locked (pos_part limit) s.outbox) s

-- The message is the claim's, is undelivered, and its lease has not run out.
unfoldable pub owns_message : OutboxClaim → Time → OutboxRow → Bool
owns_message c now o =
    o.outbox_id == c.id
    && o.destination == c.destination
    && holds_for (λ owner. owner == c.worker_id) o.delivery.lease_owner
    && o.delivery.lease_generation == c.lease_generation
    && holds_for (λ until. ltb now until) o.delivery.lease_until
    && is_undelivered o

unfoldable pub update_message :
    OutboxClaim → Time → (Delivery → Delivery) → Tables → Result StoreError Tables
unfolding owns_message
update_message c now f s =
    fail_if (not (count_where (owns_message c now) s.outbox == 1)) StoreError.outbox_lease_lost
    >> ok (record s {
      outbox =
          update_messages (owns_message c now) (λ o. record o { delivery = f o.delivery }) s.outbox;
    })

unfoldable pub mark_outbox_delivered : Time → Tables → OutboxClaim → Result StoreError Tables
unfolding update_message
mark_outbox_delivered now s c =
    update_message c now
      (λ d. record d {
        delivered_at = some now;
        lease_owner = none;
        lease_until = none;
        last_error = none;
      })
      s

-- deliveryErr is none where it is nil; its text is cut to 2048 bytes by `truncate`.
unfoldable pub retry_outbox :
    Codec
    → (String → String)
    → Time
    → Tables
    → OutboxClaim
    → Duration
    → Option String
    → Result StoreError Tables
unfolding update_message
retry_outbox codec truncate now s c delay none = err StoreError.invalid_arguments
retry_outbox codec truncate now s c delay (some delivery_error) =
    fail_if (leb_ℤ delay (pos 0)) StoreError.invalid_arguments
    >> update_message c now
        (λ d. record d {
          next_attempt_at = codec.plus_interval now delay;
          lease_owner = none;
          lease_until = none;
          last_error = some (truncate delivery_error);
        })
        s
