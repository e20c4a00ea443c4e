-- ===== src/Worker/Order.antt =====
-- The canonical order of observations and the suffix behind a checkpoint: `observationBefore`,
-- `afterCheckpoint` and `evaluableSuffix` of internal/worker/evaluation.go.
use mathlib.Core.List.{Perm}
use mathlib.Core.List.Perm
use mathlib.Core.Path.{subst}
use aero_arc_conformance.Prelude.{
  Bool, ◌≡◌, inl, inr, true, false, Option, List, [], ◌∷◌, keep_if, Bool-cases, arith, str_lt_trans,
  str_lt_irrefl, str_lt_asymm, str_lt_trichotomy,
}
use text.Mathlib.TextEquality.{eq_iff}
use aero_arc_conformance.Domain.Assignment.{Observation}
use aero_arc_conformance.Evaluator.Batch.{observation_before}
use aero_arc_conformance.Worker.Claim.{Claim, ReplayCheckpoint}
use aero_arc_conformance.Worker.Suffix.{is_evaluable, insert, sort_stable, evaluable_suffix}
use aero_arc_conformance.Worker.Wanted.{
  keep_if_same, IsWanted, is_evaluable-IsWanted, IsWanted-is_evaluable,
}

pub observation_before_irrefl : (a : Observation) → observation_before a a ≡ false
unfolding observation_before
observation_before_irrefl a =
    ground (arith, str_lt_irrefl a.frame_id, eq_iff a.agent_id a.agent_id, eq_iff a.wal_id a.wal_id)

pub observation_before-asymm :
    (a b : Observation) → observation_before a b ≡ true → observation_before b a ≡ false
unfolding observation_before
observation_before-asymm a b h = ground (
  arith,
  eq_iff a.agent_id b.agent_id,
  eq_iff b.agent_id a.agent_id,
  eq_iff a.wal_id b.wal_id,
  eq_iff b.wal_id a.wal_id,
  str_lt_asymm a.agent_id b.agent_id,
  str_lt_asymm a.wal_id b.wal_id,
  str_lt_asymm a.frame_id b.frame_id,
)

pub observation_before_trans :
    (a b c : Observation)
    → observation_before a b ≡ true
    → observation_before b c ≡ true
    → observation_before a c ≡ true
unfolding observation_before
observation_before_trans a b c h k = ground (
  arith,
  eq_iff a.agent_id b.agent_id,
  eq_iff b.agent_id c.agent_id,
  eq_iff a.agent_id c.agent_id,
  eq_iff a.wal_id b.wal_id,
  eq_iff b.wal_id c.wal_id,
  eq_iff a.wal_id c.wal_id,
  str_lt_trans a.agent_id b.agent_id c.agent_id,
  str_lt_trans a.wal_id b.wal_id c.wal_id,
  str_lt_trans a.frame_id b.frame_id c.frame_id,
)

-- What the order compares.
pub record SameKey (a b : Observation) : Type 0 where
  pub same_time : a.observed_at ≡ b.observed_at
  pub same_agent : a.agent_id ≡ b.agent_id
  pub same_wal : a.wal_id ≡ b.wal_id
  pub same_sequence : a.wal_sequence ≡ b.wal_sequence
  pub same_frame : a.frame_id ≡ b.frame_id

observation_before-trichotomy :
    (a b : Observation)
    → observation_before a b ≡ false
    → observation_before b a ≡ false
    → SameKey a b
unfolding observation_before
observation_before-trichotomy a b h k = ground (
  arith,
  eq_iff a.agent_id b.agent_id,
  eq_iff b.agent_id a.agent_id,
  eq_iff a.wal_id b.wal_id,
  eq_iff b.wal_id a.wal_id,
  str_lt_trichotomy a.agent_id b.agent_id,
  str_lt_trichotomy a.wal_id b.wal_id,
  str_lt_trichotomy a.frame_id b.frame_id,
)

-- The canonical order is a strict total order on event time, agent, WAL, WAL sequence and frame: no
-- observation is before itself, the order is transitive, and two observations of which neither is
-- before the other agree on all five.
pub observation_before_total :
    (a b c : Observation)
    → (observation_before a a ≡ false)
      × (observation_before a b ≡ true
          → observation_before b c ≡ true
          → observation_before a c ≡ true)
      × (observation_before a b ≡ false → observation_before b a ≡ false → SameKey a b)
observation_before_total a b c =
    (observation_before_irrefl a, observation_before_trans a b c, observation_before-trichotomy a b)

before-SameKey :
    (a b c : Observation)
    → SameKey a b
    → (observation_before c a ≡ observation_before c b)
      × (observation_before a c ≡ observation_before b c)
unfolding observation_before
before-SameKey a b c s = (cc, cc)

-- The order that a batch is checked for, in a chain of three.
pub not_before_trans :
    (a b c : Observation)
    → observation_before b a ≡ false
    → observation_before c b ≡ false
    → observation_before c a ≡ false
not_before_trans a b c h k = elim (Bool-cases (observation_before c a)) [
  | inr no_order ↦ no_order
  | inl reversed ↦ elim (Bool-cases (observation_before a b)) [
    | inl less ↦ cc (observation_before_trans c a b reversed less)
    | inr not_less ↦ cc ((before-SameKey a b c (observation_before-trichotomy a b not_less h)).0)
  ]
]

-- Each observation is not before the one that precedes it.
abbrev pub InOrder : Observation → List Observation → Type 0
InOrder last [] = Unit
InOrder last (o ∷ os) = (observation_before o last ≡ false) × InOrder o os

abbrev pub IsOrdered : List Observation → Type 0
IsOrdered [] = Unit
IsOrdered (o ∷ os) = InOrder o os

insert-InOrder :
    (o last : Observation) (xs : List Observation)
    → observation_before o last ≡ false
    → InOrder last xs
    → InOrder last (insert o xs)
unfolding insert
insert-InOrder o last [] h k = (h, tt)
insert-InOrder o last (x ∷ xs) h k = elim (Bool-cases (observation_before x o)) [
  | inl less ↦ rw less (k.0, insert-InOrder o x xs (observation_before-asymm x o less) k.1)
  | inr not_less ↦ rw not_less (h, (not_less, k.1))
]

insert-IsOrdered :
    (o : Observation) (xs : List Observation) → IsOrdered xs → IsOrdered (insert o xs)
unfolding insert
insert-IsOrdered o [] k = tt
insert-IsOrdered o (x ∷ xs) k = elim (Bool-cases (observation_before x o)) [
  | inl less ↦ rw less (insert-InOrder o x xs (observation_before-asymm x o less) k)
  | inr not_less ↦ rw not_less (not_less, k)
]

pub sort_stable-IsOrdered : (os : List Observation) → IsOrdered (sort_stable os)
unfolding sort_stable
sort_stable-IsOrdered [] = tt
sort_stable-IsOrdered (o ∷ os) = insert-IsOrdered o (sort_stable os) (sort_stable-IsOrdered os)

insert-perm : (o : Observation) (xs : List Observation) → Perm (insert o xs) (o ∷ xs)
unfolding insert
insert-perm o [] = Perm.refl (o ∷ [])
insert-perm o (x ∷ xs) = elim (Bool-cases (observation_before x o)) [
  | inl less ↦ rw less (Perm.trans (Perm.cons x (insert-perm o xs)) (Perm.swap o x xs))
  | inr not_less ↦ rw not_less (Perm.refl (o ∷ x ∷ xs))
]

sort_stable-perm : (os : List Observation) → Perm (sort_stable os) os
unfolding sort_stable
sort_stable-perm [] = Perm.refl []
sort_stable-perm (o ∷ os) =
    Perm.trans (insert-perm o (sort_stable os)) (Perm.cons o (sort_stable-perm os))

-- Whatever test decides what a claim evaluates, which is the observations of the assignment's agent,
-- flight, intent and intent version that lie in the half-open authority and come after the checkpoint
-- in the order of time, WAL, sequence and frame: the suffix of the claim holds the observations that
-- pass the test, each as often as it was read, in the canonical order that the evaluator checks.
pub evaluable_suffix_lem :
    (observations : List Observation) (claim : Claim) (checkpoint : Option ReplayCheckpoint)
    (wanted : Observation → Bool)
    → ((o : Observation) → wanted o ≡ true → IsWanted claim checkpoint o)
    → ((o : Observation) → IsWanted claim checkpoint o → wanted o ≡ true)
    → Perm (evaluable_suffix observations claim checkpoint) (keep_if wanted observations)
      × IsOrdered (evaluable_suffix observations claim checkpoint)
unfolding evaluable_suffix
evaluable_suffix_lem observations claim checkpoint wanted sound complete = (
  subst (λ kept. Perm (sort_stable (keep_if (is_evaluable claim checkpoint) observations)) kept)
      (keep_if_same (is_evaluable claim checkpoint) wanted
        (λ o h. complete o (is_evaluable-IsWanted claim checkpoint o h))
        (λ o h. IsWanted-is_evaluable claim checkpoint o (sound o h)) observations)
      (sort_stable-perm (keep_if (is_evaluable claim checkpoint) observations)),
  sort_stable-IsOrdered (keep_if (is_evaluable claim checkpoint) observations),
)
