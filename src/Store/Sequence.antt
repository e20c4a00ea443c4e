-- ===== src/Store/Sequence.antt =====
-- The order of the registry's messages in the outbox, said without the query of `ClaimOutbox` in
-- internal/store/postgres/store.go.
use mathlib.Core.Bool.{true≢false}
use aero_arc_conformance.Prelude.{
  String, ◌<◌, ◌≡◌, ◌≢◌, ◌⊎◌, refl, sym, ◌∙◌, inl, inr, true, false, ◌==◌, nat_eq, string_eq,
  Option, none, some, List, [], ◌∷◌, any_of, All, arith, Bool-cases, and_split, ==→eq, eq_self,
}
use aero_arc_conformance.Domain.Time.{Time}
use aero_arc_conformance.Store.Tables.{OutboxRow}
use aero_arc_conformance.Store.Outbox.{is_missing_time, is_ahead, is_undelivered, cursor_lt}
use aero_arc_conformance.Store.Delivery.{is_taken, InTurn, Identified, IsInOrder, All-mono}
use aero_arc_conformance.Store.Leases.{holds_for}

-- An earlier generation, or the same one and an earlier revision.
abbrev pub ComesBefore : OutboxRow → OutboxRow → Type 0
ComesBefore o p =
    (o.generation < p.generation)
    ⊎ ((o.generation ≡ p.generation) × (o.evaluation_revision < p.evaluation_revision))

-- The message is delivered or leased.
abbrev pub IsTaken : OutboxRow → Type 0
IsTaken o = (o.delivery.delivered_at ≢ none) ⊎ (o.delivery.lease_owner ≢ none)

abbrev pub Precedent : OutboxRow → OutboxRow → Type 0
Precedent p o =
    p.destination ≡ "registry"
    → IsTaken p
    → o.destination ≡ "registry"
    → o.assignment_id ≡ p.assignment_id
    → ComesBefore o p
    → o.delivery.delivered_at ≢ none

-- What is taken of the registry's messages has nothing undelivered before it, and no two messages have
-- the same identity.
pub record InSequence (rows : List OutboxRow) : Type 0 where
  pub in_turn : All (λ p. All (Precedent p) rows) rows
  pub unique : All (λ o. All (λ d. d.outbox_id ≡ o.outbox_id → o ≡ d) rows) rows

missing-none : (t : Option Time) → is_missing_time t ≡ true → t ≡ none
missing-none none h = refl
missing-none (some t) h = cc

given-some : (t : Option Time) → is_missing_time t ≡ false → t ≢ none
given-some none h same = cc
given-some (some t) h same = cc

some-given : (t : Option Time) → t ≢ none → is_missing_time t ≡ false
some-given none h = absurd (h refl)
some-given (some t) h = refl

owner-given : (w : Option String) → w ≢ none → holds_for (λ _. true) w ≡ true
owner-given none h = absurd (h refl)
owner-given (some w) h = refl

given-owner : (w : Option String) → holds_for (λ _. true) w ≡ true → w ≢ none
given-owner none h same = cc
given-owner (some w) h same = cc

before-ComesBefore : (o p : OutboxRow) → cursor_lt o p ≡ true → ComesBefore o p
before-ComesBefore o p h = ground arith

ComesBefore-before : (o p : OutboxRow) → ComesBefore o p → cursor_lt o p ≡ true
ComesBefore-before o p h = ground arith

pub is_ahead-ComesBefore :
    (p o : OutboxRow)
    → is_ahead p o ≡ true
    → (o.destination ≡ p.destination)
      × (o.assignment_id ≡ p.assignment_id)
      × (o.delivery.delivered_at ≡ none)
      × ComesBefore o p
unfolding is_ahead
is_ahead-ComesBefore p o h =
    let (h3, before) = and_split _ (cursor_lt o p) h in
    let (h2, missing) = and_split _ (is_undelivered o) h3 in
    let (destination, assignment) =
      and_split (o.destination == p.destination) (o.assignment_id == p.assignment_id) h2 in
    (
      ==→eq o.destination p.destination destination,
      ==→eq o.assignment_id p.assignment_id assignment,
      missing-none o.delivery.delivered_at missing,
      before-ComesBefore o p before,
    )

ComesBefore-is_ahead :
    (p o : OutboxRow)
    → o.destination ≡ p.destination
    → o.assignment_id ≡ p.assignment_id
    → is_undelivered o ≡ true
    → ComesBefore o p
    → is_ahead p o ≡ true
unfolding is_ahead
ComesBefore-is_ahead p o destination assignment missing before =
    let same_destination : (o.destination == p.destination) ≡ true =
      rw destination (eq_self p.destination) in
    let same_assignment : (o.assignment_id == p.assignment_id) ≡ true =
      rw assignment (eq_self p.assignment_id) in
    rw same_destination (rw same_assignment (rw missing (ComesBefore-before o p before)))

is_taken-IsTaken : (o : OutboxRow) → is_taken o ≡ true → IsTaken o
is_taken-IsTaken o h = elim (Bool-cases (is_undelivered o)) [
  | inr delivered ↦ inl (given-some o.delivery.delivered_at delivered)
  | inl missing ↦ inr (given-owner o.delivery.lease_owner (rw missing at h))
]

IsTaken-is_taken : (o : OutboxRow) → IsTaken o → is_taken o ≡ true
IsTaken-is_taken o (inl delivered) = rw (some-given o.delivery.delivered_at delivered) refl
IsTaken-is_taken o (inr leased) =
    let owner = owner-given o.delivery.lease_owner leased in ground (arith, owner)

none_ahead-Precedent :
    (p : OutboxRow) (rows : List OutboxRow)
    → any_of (is_ahead p) rows ≡ false
    → p.destination ≡ "registry"
    → All (Precedent p) rows
none_ahead-Precedent p [] h registry = tt
none_ahead-Precedent p (o ∷ os) h registry = elim (Bool-cases (is_ahead p o)) [
  | inl ahead ↦ absurd (true≢false (rw ahead at h))
  | inr behind ↦ (
    λ _ taken destination assignment before. elim (Bool-cases (is_undelivered o)) [
      | inr delivered ↦ given-some o.delivery.delivered_at delivered
      | inl missing ↦ absurd (
          true≢false (
            sym (ComesBefore-is_ahead p o (destination ∙ sym registry) assignment missing before)
            ∙ behind))
    ],
    none_ahead-Precedent p os (rw behind at h) registry,
  )
]

Precedent-none_ahead :
    (p : OutboxRow) (rows : List OutboxRow)
    → All (Precedent p) rows
    → p.destination ≡ "registry"
    → IsTaken p
    → any_of (is_ahead p) rows ≡ false
Precedent-none_ahead p [] h registry taken = refl
Precedent-none_ahead p (o ∷ os) h registry taken = elim (Bool-cases (is_ahead p o)) [
  | inr behind ↦ rw behind (Precedent-none_ahead p os h.1 registry taken)
  | inl ahead ↦
      let (destination, assignment, missing, before) = is_ahead-ComesBefore p o ahead in
      absurd (h.0 registry taken (destination ∙ registry) assignment before missing)
]

not_taken-Precedent :
    (p : OutboxRow) (rows : List OutboxRow)
    → (p.destination ≡ "registry" → IsTaken p → All (Precedent p) rows)
    → All (Precedent p) rows
not_taken-Precedent p [] k = tt
not_taken-Precedent p (o ∷ os) k = (
  λ registry taken. (k registry taken).0 registry taken,
  not_taken-Precedent p os (λ registry taken. (k registry taken).1),
)

pub IsInOrder-InSequence : (rows : List OutboxRow) → IsInOrder rows → InSequence rows
IsInOrder-InSequence rows h = record {
  in_turn =
      All-mono (InTurn rows) (λ p. All (Precedent p) rows)
        (λ p turn. not_taken-Precedent p rows (λ registry taken.
          none_ahead-Precedent p rows (turn (rw registry refl) (IsTaken-is_taken p taken))
            registry))
        rows h.in_turn;
  unique =
      All-mono (λ o. All (Identified o) rows)
        (λ o. All (λ d. d.outbox_id ≡ o.outbox_id → o ≡ d) rows)
        (λ o ids.
          All-mono (Identified o) (λ d. d.outbox_id ≡ o.outbox_id → o ≡ d)
            (λ d identified same. identified (rw same (eq_self o.outbox_id))) rows ids)
        rows h.unique;
}

pub InSequence-IsInOrder : (rows : List OutboxRow) → InSequence rows → IsInOrder rows
InSequence-IsInOrder rows h = record {
  in_turn =
      All-mono (λ p. All (Precedent p) rows) (InTurn rows)
        (λ p precedent registry taken.
          Precedent-none_ahead p rows precedent (==→eq p.destination "registry" registry)
            (is_taken-IsTaken p taken))
        rows h.in_turn;
  unique =
      All-mono (λ o. All (λ d. d.outbox_id ≡ o.outbox_id → o ≡ d) rows)
        (λ o. All (Identified o) rows)
        (λ o ids.
          All-mono (λ d. d.outbox_id ≡ o.outbox_id → o ≡ d) (Identified o)
            (λ d identified same. identified (==→eq d.outbox_id o.outbox_id same)) rows ids)
        rows h.unique;
}
