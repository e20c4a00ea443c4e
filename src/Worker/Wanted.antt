-- ===== src/Worker/Wanted.antt =====
-- What a claim evaluates, said without the tests of `evaluableSuffix` in
-- internal/worker/evaluation.go.
use aero_arc_conformance.Prelude.{
  refl, ◌⊎◌, ◌<◌, ◌≤◌, Bool, none, some, str_lt, and_split, ◌&&◌, ◌≡◌, true, Option, List, [], ◌∷◌,
  keep_if, arith,
}
use text.Mathlib.TextEquality.{eq_iff}
use aero_arc_conformance.Domain.Assignment.{Observation}
use aero_arc_conformance.Worker.Claim.{Claim, ReplayCheckpoint}
use aero_arc_conformance.Worker.Suffix.{
  after_checkpoint, is_attributed, in_authority, is_new, is_evaluable,
}

pub keep_if_same :
    (p q : Observation → Bool)
    → ((o : Observation) → p o ≡ true → q o ≡ true)
    → ((o : Observation) → q o ≡ true → p o ≡ true)
    → (os : List Observation) → keep_if p os ≡ keep_if q os
keep_if_same p q there back [] = refl
keep_if_same p q there back (o ∷ os) =
    ground (arith, there o, back o, keep_if_same p q there back os)

-- The observation comes after the cursor, in the order of time, WAL, sequence and frame.
abbrev pub IsPast : Option ReplayCheckpoint → Observation → Type 0
IsPast none o = Unit
IsPast (some c) o =
    (c.state_through_at < o.observed_at)
    ⊎ ((c.state_through_at ≡ o.observed_at)
        × ((str_lt c.wal_id o.wal_id ≡ true)
            ⊎ ((c.wal_id ≡ o.wal_id)
                × ((c.wal_sequence < o.wal_sequence)
                    ⊎ ((c.wal_sequence ≡ o.wal_sequence)
                        × (str_lt c.frame_id o.frame_id ≡ true))))))

-- What a claim evaluates.
pub record IsWanted (claim : Claim) (checkpoint : Option ReplayCheckpoint) (o : Observation)
    : Type 0 where
  pub agent : o.agent_id ≡ claim.assignment.agent_id
  pub flight : o.flight_id ≡ claim.assignment.flight_id
  pub intent : o.intent_id ≡ claim.assignment.intent_id
  pub version : o.intent_version ≡ claim.assignment.intent_version
  pub from : claim.authority_from ≤ o.observed_at
  pub until : o.observed_at < claim.authority_until
  pub past : IsPast checkpoint o

is_new-IsPast :
    (checkpoint : Option ReplayCheckpoint) (o : Observation)
    → (is_new checkpoint o ≡ true → IsPast checkpoint o)
      × (IsPast checkpoint o → is_new checkpoint o ≡ true)
unfolding after_checkpoint
is_new-IsPast none o = (λ h. tt, λ h. refl)
is_new-IsPast (some c) o = (
  λ h. ground (arith, h, eq_iff o.wal_id c.wal_id),
  λ h. ground (arith, h, eq_iff o.wal_id c.wal_id),
)

pub attributed-wanted :
    (claim : Claim) (o : Observation)
    → is_attributed claim o ≡ true
    → (o.agent_id ≡ claim.assignment.agent_id)
      × (o.flight_id ≡ claim.assignment.flight_id)
      × (o.intent_id ≡ claim.assignment.intent_id)
      × (o.intent_version ≡ claim.assignment.intent_version)
unfolding is_attributed
attributed-wanted claim o h = ground (
  arith,
  h,
  eq_iff o.agent_id claim.assignment.agent_id,
  eq_iff o.flight_id claim.assignment.flight_id,
  eq_iff o.intent_id claim.assignment.intent_id,
)

pub is_evaluable-IsWanted :
    (claim : Claim) (checkpoint : Option ReplayCheckpoint) (o : Observation)
    → is_evaluable claim checkpoint o ≡ true
    → IsWanted claim checkpoint o
unfolding is_evaluable in_authority
is_evaluable-IsWanted claim checkpoint o h =
    let (attributed, rest) =
      and_split (is_attributed claim o) (in_authority claim o && is_new checkpoint o) h in
    let (inside, new) = and_split (in_authority claim o) (is_new checkpoint o) rest in
    let (a, f, i, v) = attributed-wanted claim o attributed in
    record {
      agent = a;
      flight = f;
      intent = i;
      version = v;
      from = ground (arith, inside);
      until = ground (arith, inside);
      past = (is_new-IsPast checkpoint o).0 new;
    }

pub IsWanted-is_evaluable :
    (claim : Claim) (checkpoint : Option ReplayCheckpoint) (o : Observation)
    → IsWanted claim checkpoint o
    → is_evaluable claim checkpoint o ≡ true
unfolding is_evaluable in_authority is_attributed
IsWanted-is_evaluable claim checkpoint o w =
    let a = w.agent in
    let f = w.flight in
    let i = w.intent in
    let v = w.version in
    let from = w.from in
    let until = w.until in
    ground (
      arith,
      (is_new-IsPast checkpoint o).1 w.past,
      eq_iff o.agent_id claim.assignment.agent_id,
      eq_iff o.flight_id claim.assignment.flight_id,
      eq_iff o.intent_id claim.assignment.intent_id,
    )
