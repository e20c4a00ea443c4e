-- ===== src/Worker/Resume.antt =====
-- Resuming behind a checkpoint: `afterCheckpoint` and `evaluableSuffix` of
-- internal/worker/evaluation.go.
use aero_arc_conformance.Prelude.{
  true, and_split, ◌≡◌, refl, sym, ap, ◌∙◌, ◌&&◌, inl, inr, Bool, false, none, some, List, [], ◌∷◌,
  keep_if, Bool-cases, arith, if◌then◌else◌,
}
use text.Mathlib.TextEquality.{eq_iff}
use aero_arc_conformance.Domain.Assignment.{Observation}
use aero_arc_conformance.Evaluator.Batch.{observation_before}
use aero_arc_conformance.Worker.Claim.{Claim, ReplayCheckpoint}
use aero_arc_conformance.Worker.Suffix.{
  after_checkpoint, is_attributed, in_authority, is_evaluable, insert, sort_stable,
  evaluable_suffix,
}
use aero_arc_conformance.Worker.Wanted.{attributed-wanted}
use aero_arc_conformance.Worker.Order.{
  observation_before_irrefl, InOrder, IsOrdered, not_before_trans, sort_stable-IsOrdered,
}

-- The checkpoint was taken at the observation.
pub record TakenAt (o : Observation) (c : ReplayCheckpoint) : Type 0 where
  pub same_time : c.state_through_at ≡ o.observed_at
  pub same_wal : c.wal_id ≡ o.wal_id
  pub same_sequence : c.wal_sequence ≡ o.wal_sequence
  pub same_frame : c.frame_id ≡ o.frame_id

-- For telemetry of one agent the checkpoint test is the canonical order: an observation comes after
-- a checkpoint exactly when the observation that the checkpoint was taken at is before it.
pub after_checkpoint-observation_before :
    (o p : Observation) (c : ReplayCheckpoint)
    → TakenAt p c
    → o.agent_id ≡ p.agent_id
    → after_checkpoint o c ≡ observation_before p o
unfolding after_checkpoint observation_before
after_checkpoint-observation_before o p c t h =
    ground (arith, eq_iff o.wal_id c.wal_id, eq_iff p.wal_id o.wal_id, eq_iff p.agent_id o.agent_id)

module _ (keep : Observation → Bool) where
  -- No observation of an ordered list is before one that its first element is not before.
  insert_in_front :
      (o x : Observation) (xs : List Observation)
      → observation_before x o ≡ false
      → InOrder x xs
      → insert o (keep_if keep xs) ≡ o ∷ keep_if keep xs
  unfolding insert
  insert_in_front o x [] h k = refl
  insert_in_front o x (y ∷ xs) h k =
      let later = not_before_trans o x y h k.0 in
      let rest = insert_in_front o y xs later k.1 in ground (arith, later, rest)

  tail-IsOrdered : (x : Observation) (xs : List Observation) → InOrder x xs → IsOrdered xs
  tail-IsOrdered x [] k = tt
  tail-IsOrdered x (y ∷ xs) k = k.1

  keep_if-insert :
      (o : Observation) (xs : List Observation)
      → IsOrdered xs
      → keep_if keep (insert o xs)
        ≡ (if keep o then insert o (keep_if keep xs) else keep_if keep xs)
  unfolding insert
  keep_if-insert o [] k = ground arith
  keep_if-insert o (x ∷ xs) k = elim (Bool-cases (observation_before x o)) [
    | inl less ↦ ground (arith, keep_if-insert o xs (tail-IsOrdered x xs k))
    | inr not_less ↦ ground (arith, insert_in_front o x xs not_less k)
  ]

  keep_if-sort_stable :
      (os : List Observation) → keep_if keep (sort_stable os) ≡ sort_stable (keep_if keep os)
  unfolding sort_stable
  keep_if-sort_stable [] = refl
  keep_if-sort_stable (o ∷ os) =
      keep_if-insert o (sort_stable os) (sort_stable-IsOrdered os)
      ∙ ground (arith, keep_if-sort_stable os)

keep_if_twice :
    (p q r : Observation → Bool) (os : List Observation)
    → ((o : Observation) → r o ≡ (p o && q o))
    → keep_if q (keep_if p os) ≡ keep_if r os
keep_if_twice p q r [] h = refl
keep_if_twice p q r (o ∷ os) h = ground (arith, h o, keep_if_twice p q r os h)

-- Behind a checkpoint that was taken at `p`, evaluable means evaluable at all and after `p`.
evaluable_behind :
    (claim : Claim) (c : ReplayCheckpoint) (p : Observation)
    → TakenAt p c
    → p.agent_id ≡ claim.assignment.agent_id
    → (o : Observation)
    → is_evaluable claim (some c) o ≡ (is_evaluable claim none o && observation_before p o)
unfolding is_evaluable is_attributed
evaluable_behind claim c p taken own o = elim (Bool-cases (is_evaluable claim none o)) [
  | inr out ↦ ground (arith, out)
  | inl evaluable ↦
      let same_agent : o.agent_id ≡ claim.assignment.agent_id =
        (attributed-wanted claim o
          (and_split (is_attributed claim o) (in_authority claim o && true) evaluable).0).0 in
      ground
        (arith, evaluable, after_checkpoint-observation_before o p c taken (same_agent ∙ sym own))
]

-- Reading again from before a checkpoint loses and repeats nothing: from the same telemetry, where the
-- checkpoint was taken at an observation of the claim's agent, the suffix behind the checkpoint is what
-- comes after that observation, in the canonical order, in the whole suffix of the claim. The
-- observation itself is left out.
pub evaluable_suffix-checkpoint :
    (observations : List Observation) (claim : Claim) (c : ReplayCheckpoint) (p : Observation)
    → TakenAt p c
    → p.agent_id ≡ claim.assignment.agent_id
    → (evaluable_suffix observations claim (some c)
        ≡ keep_if (observation_before p) (evaluable_suffix observations claim none))
      × (is_evaluable claim (some c) p ≡ false)
unfolding evaluable_suffix
evaluable_suffix-checkpoint observations claim c p taken own =
    let behind = evaluable_behind claim c p taken own in
    (
      sym (
          keep_if-sort_stable (observation_before p)
            (keep_if (is_evaluable claim none) observations)
          ∙ ap sort_stable (
              keep_if_twice (is_evaluable claim none) (observation_before p)
                (is_evaluable claim (some c)) observations behind)),
      behind p ∙ ground (arith, observation_before_irrefl p),
    )
