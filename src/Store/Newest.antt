-- ===== src/Store/Newest.antt =====
-- The newest checkpoint of an assignment: the watermark of `writeEvaluation` in
-- internal/store/postgres/store.go.
use mathlib.Core.Bool.{true≢false}
use mathlib.Core.List.{Memᴰ}
use aero_arc_conformance.Prelude.{
  ℕ, ◌≤◌, ◌≡◌, ◌≢◌, ◌⊎◌, refl, sym, ◌∙◌, inl, inr, true, false, ◌==◌, nat_eq, string_eq, ltb,
  Option, none, some, List, [], ◌∷◌, All, arith, Bool-cases, and_split, ==→eq, eq_self,
}
use aero_arc_conformance.Domain.Assignment.{Assignment}
use aero_arc_conformance.Domain.Incident.{Evaluation}
use aero_arc_conformance.Store.Rows.{CheckpointRow}
use aero_arc_conformance.Store.Commit.{Sign, compare_evaluation_cursor}
use aero_arc_conformance.Store.Write.{newest_checkpoint, newer_checkpoint, is_checkpoint_of}

-- The checkpoint is one of the assignment's that has the greatest revision of them.
pub record IsNewest (a : Assignment) (before : List CheckpointRow) (c : CheckpointRow)
    : Type 0 where
  pub known : Memᴰ c before
  pub own_assignment : c.assignment_id ≡ a.id
  pub own_generation : c.generation ≡ a.generation
  pub newest :
      All
        (λ d.
          d.assignment_id ≡ a.id
          → d.generation ≡ a.generation
          → d.evaluation_revision ≤ c.evaluation_revision)
        before

-- None of the checkpoints is the assignment's, or the cursor comes after that of the newest.
abbrev pub ComesAfter : Assignment → List CheckpointRow → Evaluation → Type 0
ComesAfter a before e =
    All (λ d. d.assignment_id ≡ a.id → d.generation ≢ a.generation) before
    ⊎ ((c : CheckpointRow) × IsNewest a before c
        × (compare_evaluation_cursor e c.state_through_at c.wal_id c.wal_sequence c.frame_id
            ≡ Sign.greater))

module _ (a : Assignment) where
  not_own :
      (c : CheckpointRow)
      → is_checkpoint_of a.id a.generation c ≡ false
      → c.assignment_id ≡ a.id
      → c.generation ≢ a.generation
  not_own c other id generation =
      let same_id : (c.assignment_id == a.id) ≡ true = rw id (eq_self a.id) in
      let same_generation : (c.generation == a.generation) ≡ true =
        rw generation (eq_self a.generation) in
      true≢false (sym (rw same_id (rw same_generation refl)) ∙ other)

  none-at_most :
      (n : ℕ) (cs : List CheckpointRow)
      → All (λ d. d.assignment_id ≡ a.id → d.generation ≢ a.generation) cs
      → All
          (λ d. d.assignment_id ≡ a.id → d.generation ≡ a.generation → d.evaluation_revision ≤ n)
          cs
  none-at_most n [] h = tt
  none-at_most n (c ∷ cs) h = (λ id generation. absurd (h.0 id generation), none-at_most n cs h.1)

  at_most_mono :
      (m n : ℕ) (cs : List CheckpointRow)
      → m ≤ n
      → All
          (λ d. d.assignment_id ≡ a.id → d.generation ≡ a.generation → d.evaluation_revision ≤ m)
          cs
      → All
          (λ d. d.assignment_id ≡ a.id → d.generation ≡ a.generation → d.evaluation_revision ≤ n)
          cs
  at_most_mono m n [] k h = tt
  at_most_mono m n (c ∷ cs) k h =
      (λ id generation. omega (arith, h.0 id generation), at_most_mono m n cs k h.1)

  none-IsNewest :
      (c : CheckpointRow) (cs : List CheckpointRow)
      → is_checkpoint_of a.id a.generation c ≡ true
      → All (λ d. d.assignment_id ≡ a.id → d.generation ≢ a.generation) cs
      → IsNewest a (c ∷ cs) c
  none-IsNewest c cs own others =
      let (id, generation) =
        and_split (c.assignment_id == a.id) (c.generation == a.generation) own in
      record {
        known = Memᴰ.head refl;
        own_assignment = ==→eq c.assignment_id a.id id;
        own_generation = ==→eq c.generation a.generation generation;
        newest = (λ _ _. omega arith, none-at_most c.evaluation_revision cs others);
      }

  head-IsNewest :
      (c d : CheckpointRow) (cs : List CheckpointRow)
      → is_checkpoint_of a.id a.generation c ≡ true
      → d.evaluation_revision ≤ c.evaluation_revision
      → IsNewest a cs d
      → IsNewest a (c ∷ cs) c
  head-IsNewest c d cs own above n =
      let (id, generation) =
        and_split (c.assignment_id == a.id) (c.generation == a.generation) own in
      record {
        known = Memᴰ.head refl;
        own_assignment = ==→eq c.assignment_id a.id id;
        own_generation = ==→eq c.generation a.generation generation;
        newest = (
          λ _ _. omega arith,
          at_most_mono d.evaluation_revision c.evaluation_revision cs above n.newest,
        );
      }

  tail-IsNewest :
      (c d : CheckpointRow) (cs : List CheckpointRow)
      → (c.assignment_id ≡ a.id
          → c.generation ≡ a.generation
          → c.evaluation_revision ≤ d.evaluation_revision)
      → IsNewest a cs d
      → IsNewest a (c ∷ cs) d
  tail-IsNewest c d cs below n = record {
    known = Memᴰ.tail n.known;
    own_assignment = n.own_assignment;
    own_generation = n.own_generation;
    newest = (below, n.newest);
  }

  abbrev pub Found : List CheckpointRow → Option CheckpointRow → Type 0
  Found cs none = All (λ d. d.assignment_id ≡ a.id → d.generation ≢ a.generation) cs
  Found cs (some c) = IsNewest a cs c

  newer-Found :
      (c : CheckpointRow) (cs : List CheckpointRow) (rest : Option CheckpointRow)
      → is_checkpoint_of a.id a.generation c ≡ true
      → Found cs rest
      → Found (c ∷ cs) (some (newer_checkpoint c rest))
  newer-Found c cs none own h = none-IsNewest c cs own h
  newer-Found c cs (some d) own h =
      elim (Bool-cases (ltb c.evaluation_revision d.evaluation_revision)) [
        | inl newer ↦ rw newer (tail-IsNewest c d cs (λ _ _. ground (arith, newer)) h)
        | inr older ↦ rw older (head-IsNewest c d cs own (ground (arith, older)) h)
      ]

  other-Found :
      (c : CheckpointRow) (cs : List CheckpointRow) (rest : Option CheckpointRow)
      → is_checkpoint_of a.id a.generation c ≡ false
      → Found cs rest
      → Found (c ∷ cs) rest
  other-Found c cs none other h = (λ id generation. not_own c other id generation, h)
  other-Found c cs (some d) other h =
      tail-IsNewest c d cs (λ id generation. absurd (not_own c other id generation)) h

  pub newest_checkpoint-Found :
      (cs : List CheckpointRow) → Found cs (newest_checkpoint a.id a.generation cs)
  unfolding newest_checkpoint
  newest_checkpoint-Found [] = tt
  newest_checkpoint-Found (c ∷ cs) =
      let rest = newest_checkpoint a.id a.generation cs in
      elim (Bool-cases (is_checkpoint_of a.id a.generation c)) [
        | inl own ↦ rw own (newer-Found c cs rest own (newest_checkpoint-Found cs))
        | inr other ↦ rw other (other-Found c cs rest other (newest_checkpoint-Found cs))
      ]
