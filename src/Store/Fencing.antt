-- ===== src/Store/Fencing.antt =====
-- Stale claims: the lease generation of internal/store/postgres/store.go fences a claim out once the
-- assignment has been claimed again.
use aero_arc_conformance.Prelude.{
  ℕ, pos, ◌≤◌, ◌<◌, ◌≡◌, ◌≢◌, refl, Bool, true, false, not, ◌&&◌, ◌||◌, ◌==◌, nat_eq, string_eq,
  ltb, leb, leb_ℤ, none, some, List, [], ◌∷◌, ok, ◌>>◌, fail_if, All, arith, >>=-eq-ok, err-not_ok,
}
use aero_arc_conformance.Domain.Time.{Time, Duration, is_zero, supported_unix_nanoseconds}
use aero_arc_conformance.Store.Tables.{Row, Tables, Codec, StoreError, has_key, first, max_int64}
use aero_arc_conformance.Store.Leases.{
  count_where, owns, owns_revision, update_owned, defer_assignment_evaluation,
  renew_assignment_lease, within_grace,
}
use aero_arc_conformance.Store.Commit.{EvaluationCommit, validate_evaluation_commit}
use aero_arc_conformance.Store.Evaluations.{
  commit_evaluation, commit_historical_evaluation, commit_row, reconcile_row, is_committed,
  is_consumed, consumed_row, is_historical,
}
use aero_arc_conformance.Worker.Claim.{Claim}

-- The row is of the claim's assignment and generation.
abbrev pub is_row_of : Claim → Row → Bool
is_row_of c r = has_key c.assignment.id c.assignment.generation r

-- The row has been leased again since.
abbrev pub LeasedAgain : Claim → Row → Type 0
LeasedAgain c r = is_row_of c r ≡ true → c.lease_generation < r.lease_generation

abbrev pub LeasedOnce : Claim → Row → Type 0
LeasedOnce c r = is_row_of c r ≡ true → c.lease_generation ≤ r.lease_generation

abbrev pub IsStale : Claim → Tables → Type 0
IsStale c s = All (LeasedAgain c) s.assignments

-- No row of the claim's key has a lease generation before the claim's.
abbrev pub IsIssued : Claim → Tables → Type 0
IsIssued c s = All (LeasedOnce c) s.assignments

module _ (codec : Codec) (now : Time) (c : Claim) where
  owns-LeasedAgain : (r : Row) → LeasedAgain c r → owns codec now c r ≡ false
  unfolding owns
  owns-LeasedAgain r h = ground (arith, h)

  -- A test that implies ownership selects no row.
  count-stale :
      (p : Row → Bool) (rs : List Row)
      → ((r : Row) → owns codec now c r ≡ false → p r ≡ false)
      → All (LeasedAgain c) rs
      → count_where p rs ≡ 0
  count-stale p [] k h = refl
  count-stale p (r ∷ rs) k h = rw (k r (owns-LeasedAgain r h.0)) (count-stale p rs k h.1)

  first-stale :
      (p : Row → Bool) (rs : List Row)
      → ((r : Row) → owns codec now c r ≡ false → p r ≡ false)
      → All (LeasedAgain c) rs
      → first p rs ≡ none
  first-stale p [] k h = refl
  first-stale p (r ∷ rs) k h = rw (k r (owns-LeasedAgain r h.0)) (first-stale p rs k h.1)

  update_owned-stale :
      (p : Row → Bool) (f : Row → Row) (s t : Tables)
      → ((r : Row) → owns codec now c r ≡ false → p r ≡ false)
      → IsStale c s
      → update_owned codec now p f s ≢ ok t
  unfolding update_owned
  update_owned-stale p f s t k h e =
      err-not_ok StoreError.lease_lost t (rw (count-stale p s.assignments k h) at e)

  pub defer-stale :
      (s t : Tables) (next : Time)
      → IsStale c s
      → defer_assignment_evaluation codec now s c next ≢ ok t
  unfolding defer_assignment_evaluation
  defer-stale s t next h e =
      let (_, _, rest) =
        >>=-eq-ok (fail_if (is_zero next) StoreError.invalid_arguments)
          (λ _.
            update_owned codec now
              (λ r. owns_revision codec now c r && within_grace codec now c.finalization_grace r)
              (λ r. record r {
                lease_owner = none;
                lease_until = none;
                next_evaluation_at = codec.timestamptz next;
              })
              s)
          e in
      update_owned-stale
        (λ r. owns_revision codec now c r && within_grace codec now c.finalization_grace r)
        (λ r. record r {
          lease_owner = none;
          lease_until = none;
          next_evaluation_at = codec.timestamptz next;
        })
        s t (λ r n. ground (arith, n)) h rest

  pub renew-stale :
      (s t : Tables) (extension : Duration)
      → IsStale c s
      → renew_assignment_lease codec now s c extension ≢ ok t
  unfolding renew_assignment_lease
  renew-stale s t extension h e =
      let (_, _, rest) =
        >>=-eq-ok (fail_if (leb_ℤ extension (pos 0)) StoreError.invalid_arguments)
          (λ _.
            update_owned codec now
              (λ r. owns codec now c r && within_grace codec now c.finalization_grace r)
              (λ r. record r { lease_until = some (codec.plus_interval now extension) }) s)
          e in
      update_owned-stale (λ r. owns codec now c r && within_grace codec now c.finalization_grace r)
        (λ r. record r { lease_until = some (codec.plus_interval now extension) }) s t
        (λ r n. ground (arith, n)) h rest

  pub commit-stale :
      (s t : Tables) (commit : EvaluationCommit)
      → IsStale c s
      → commit_evaluation codec now s c commit ≢ ok t
  unfolding commit_evaluation commit_row
  commit-stale s t commit h e =
      let p : Row → Bool = is_committed codec now c commit.evaluation in
      let (_, _, rest) =
        >>=-eq-ok (validate_evaluation_commit commit)
          (λ _. commit_row codec now s c commit (first p s.assignments)) e in
      let missing : first p s.assignments ≡ none =
        first-stale p s.assignments (λ r n. ground (arith, n)) h in
      err-not_ok StoreError.lease_lost t (rw missing at rest)

  pub reconcile-stale :
      (s t : Tables) (generation : ℕ) (commit : EvaluationCommit)
      → IsStale c s
      → commit_historical_evaluation codec now s c generation commit ≢ ok t
  unfolding commit_historical_evaluation
  reconcile-stale s t generation commit h e =
      let p : Row → Bool = is_historical codec now c.assignment.id generation commit.evaluation in
      let (u, updated, _) =
        >>=-eq-ok
          (validate_evaluation_commit commit
            >> fail_if
                (generation == 0
                  || ltb max_int64 generation
                  || leb c.assignment.generation generation
                  || not (supported_unix_nanoseconds commit.evaluation.observed_at))
                StoreError.invalid_target
            >> update_owned codec now (is_consumed codec now c)
                (consumed_row codec now commit.next_evaluation_at) s)
          (λ (u : Tables). reconcile_row codec now u p commit (first p u.assignments)) e in
      let (_, _, owned) =
        >>=-eq-ok
          (validate_evaluation_commit commit
            >> fail_if
                (generation == 0
                  || ltb max_int64 generation
                  || leb c.assignment.generation generation
                  || not (supported_unix_nanoseconds commit.evaluation.observed_at))
                StoreError.invalid_target)
          (λ _.
            update_owned codec now (is_consumed codec now c)
              (consumed_row codec now commit.next_evaluation_at) s)
          updated in
      update_owned-stale (is_consumed codec now c)
        (consumed_row codec now commit.next_evaluation_at) s u (λ r n. ground (arith, n)) h owned
