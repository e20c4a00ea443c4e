-- ===== src/Store/Delivery.antt =====
-- The order in which the registry's messages leave the outbox: `ClaimOutbox`, `MarkOutboxDelivered`,
-- `RetryOutbox` and the enqueueing of `writeEvaluation` in internal/store/postgres/store.go.
use mathlib.Core.Bool.{true≢false}
use aero_arc_conformance.Prelude.{
  ℕ, suc, ◌≡◌, refl, sym, ap, ◌∙◌, inl, inr, Bool, true, false, not, ◌&&◌, ◌||◌, ◌==◌, nat_eq,
  string_eq, if◌then◌else◌, List, [], ◌∷◌, keep_if, any_of, All, arith, Bool-cases,
}
use aero_arc_conformance.Store.Rows.{Delivery}
use aero_arc_conformance.Store.Tables.{OutboxRow}
use aero_arc_conformance.Store.Leases.{holds_for, limited}
use aero_arc_conformance.Store.Outbox.{
  is_undelivered, is_ahead, insert_by, sort_by, update_messages, same_id,
}

abbrev pub for_registry : OutboxRow → Bool
for_registry o = o.destination == "registry"

-- The message is delivered, or a publisher has it.
abbrev pub is_taken : OutboxRow → Bool
is_taken o = not (is_undelivered o) || holds_for (λ owner. true) o.delivery.lease_owner

-- Where the message is taken, none is ahead of it.
abbrev pub InTurn : List OutboxRow → OutboxRow → Type 0
InTurn rows o = for_registry o ≡ true → is_taken o ≡ true → any_of (is_ahead o) rows ≡ false

abbrev pub Identified : OutboxRow → OutboxRow → Type 0
Identified o d = same_id o d ≡ true → o ≡ d

-- The order of the registry's messages, and the primary key of the outbox.
pub record IsInOrder (rows : List OutboxRow) : Type 0 where
  pub in_turn : All (InTurn rows) rows
  pub unique : All (λ o. All (Identified o) rows) rows

pub All-mono :
    (P Q : OutboxRow → Type 0)
    → ((o : OutboxRow) → P o → Q o)
    → (os : List OutboxRow) → All P os
    → All Q os
All-mono P Q k [] h = tt
All-mono P Q k (o ∷ os) h = (k o h.0, All-mono P Q k os h.1)

All-update :
    (P Q : OutboxRow → Type 0) (p : OutboxRow → Bool) (f : OutboxRow → OutboxRow)
    → ((o : OutboxRow) → P o → Q (if p o then f o else o))
    → (os : List OutboxRow) → All P os
    → All Q (update_messages p f os)
All-update P Q p f k [] h = tt
All-update P Q p f k (o ∷ os) h = (k o h.0, All-update P Q p f k os h.1)

pub All-both :
    (P Q R : OutboxRow → Type 0)
    → ((o : OutboxRow) → P o → Q o → R o)
    → (os : List OutboxRow) → All P os
    → All Q os
    → All R os
All-both P Q R k [] h i = tt
All-both P Q R k (o ∷ os) h i = (k o h.0 i.0, All-both P Q R k os h.1 i.1)

-- An update of the delivery that does not undo one.
abbrev pub KeepsDelivered : (Delivery → Delivery) → Type 0
KeepsDelivered g =
    (o : OutboxRow)
    → is_undelivered o ≡ false
    → is_undelivered (record o { delivery = g o.delivery }) ≡ false

module _ (p : OutboxRow → Bool) (g : Delivery → Delivery) (keeps : KeepsDelivered g) where
  abbrev updated : OutboxRow → OutboxRow
  updated o = if p o then record o { delivery = g o.delivery } else o

  ahead-updated :
      (o x : OutboxRow) → is_ahead o x ≡ false → is_ahead (updated o) (updated x) ≡ false
  unfolding is_ahead
  ahead-updated o x h = ground (arith, keeps x)

  any_ahead-updated :
      (o : OutboxRow) (rows : List OutboxRow)
      → any_of (is_ahead o) rows ≡ false
      → any_of
          (is_ahead (updated o))
          (update_messages p (λ o. record o { delivery = g o.delivery }) rows)
        ≡ false
  any_ahead-updated o [] h = refl
  any_ahead-updated o (x ∷ xs) h = elim (Bool-cases (is_ahead o x)) [
    | inl ahead ↦ absurd (true≢false (rw ahead at h))
    | inr behind ↦ rw (ahead-updated o x behind) (any_ahead-updated o xs (rw behind at h))
  ]

  -- What the update takes had no message ahead of it.
  abbrev pub Takes : List OutboxRow → OutboxRow → Type 0
  Takes rows o = for_registry o ≡ true → p o ≡ true → any_of (is_ahead o) rows ≡ false

  InTurn-updated :
      (rows : List OutboxRow) (o : OutboxRow)
      → InTurn rows o
      → Takes rows o
      → InTurn (update_messages p (λ o. record o { delivery = g o.delivery }) rows) (updated o)
  InTurn-updated rows o h k registry taken = any_ahead-updated o rows (elim (Bool-cases (p o)) [
    | inl selected ↦ k (rw selected at registry) selected
    | inr left ↦ h (rw left at registry) (rw left at taken)
  ])

  Identified-updated : (o d : OutboxRow) → Identified o d → Identified (updated o) (updated d)
  Identified-updated o d h same = ap updated (h (ids ∙ same))
    where
      ids : same_id o d ≡ same_id (updated o) (updated d)
      ids = ground arith

  pub IsInOrder-updated :
      (rows : List OutboxRow)
      → IsInOrder rows
      → All (Takes rows) rows
      → IsInOrder (update_messages p (λ o. record o { delivery = g o.delivery }) rows)
  IsInOrder-updated rows h takes = record {
    in_turn =
        All-update (λ o. InTurn rows o × Takes rows o) (InTurn changed) p change
          (λ o (i, t). InTurn-updated rows o i t) rows
          (All-both (InTurn rows) (Takes rows) (λ o. InTurn rows o × Takes rows o) (λ o i t. (i, t))
            rows h.in_turn takes);
    unique =
        All-update (λ o. All (Identified o) rows) (λ o. All (Identified o) changed) p change
          (λ o ids.
            All-update (Identified o) (Identified (updated o)) p change
              (λ d. Identified-updated o d) rows ids)
          rows h.unique;
  }
    where
      change : OutboxRow → OutboxRow
      change o = record o { delivery = g o.delivery }

      changed : List OutboxRow
      changed = update_messages p change rows

-- A row that satisfies a test, and what is known of every row.
pub any_of-All :
    (P : OutboxRow → Type 0) (test : OutboxRow → Bool) (rows : List OutboxRow)
    → any_of test rows ≡ true
    → All P rows
    → (d : OutboxRow) × (test d ≡ true) × P d
any_of-All P test [] h k = absurd (true≢false (sym h))
any_of-All P test (d ∷ ds) h k = elim (Bool-cases (test d)) [
  | inl here ↦ (d, here, k.0)
  | inr elsewhere ↦ any_of-All P test ds (rw elsewhere at h) k.1
]

module _ (q : OutboxRow → Bool) where
  pub any_of-limited :
      (limit : ℕ) (rows : List OutboxRow)
      → any_of q (limited limit rows) ≡ true
      → any_of q rows ≡ true
  any_of-limited limit [] h = h
  any_of-limited ℕ.zero (o ∷ os) h = absurd (true≢false (sym h))
  any_of-limited (suc limit) (o ∷ os) h = ground (arith, any_of-limited limit os)

  any_of-insert_by :
      (precedes : OutboxRow → OutboxRow → Bool) (o : OutboxRow) (os : List OutboxRow)
      → any_of q (insert_by precedes o os) ≡ q o || any_of q os
  unfolding insert_by
  any_of-insert_by precedes o [] = refl
  any_of-insert_by precedes o (x ∷ xs) = ground (arith, any_of-insert_by precedes o xs)

  pub any_of-sort_by :
      (precedes : OutboxRow → OutboxRow → Bool) (os : List OutboxRow)
      → any_of q (sort_by precedes os) ≡ any_of q os
  unfolding sort_by
  any_of-sort_by precedes [] = refl
  any_of-sort_by precedes (o ∷ os) =
      any_of-insert_by precedes o (sort_by precedes os)
      ∙ ap (λ b. q o || b) (any_of-sort_by precedes os)

  pub any_of-keep_if :
      (p : OutboxRow → Bool) (os : List OutboxRow)
      → any_of q (keep_if p os) ≡ any_of (λ o. p o && q o) os
  any_of-keep_if p [] = refl
  any_of-keep_if p (o ∷ os) = ground (arith, any_of-keep_if p os)
