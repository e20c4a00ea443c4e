-- ===== src/Store/Leases.antt =====
-- Leases on assignments: `ClaimDueAssignmentsWithFinalizationGrace`, `ClaimDueAssignments`,
-- `DeferAssignmentEvaluation` and `RenewAssignmentLease` of internal/store/postgres/store.go. `now` is
-- the clock of PostgreSQL in the transaction.
use aero_arc_conformance.Prelude.{
  ℕ, ℤ, pos, suc, Bool, true, false, not, ◌&&◌, ◌||◌, ◌==◌, nat_eq, string_eq, ltb, leb, ltb_ℤ,
  leb_ℤ, pos_part, if◌then◌else◌, Option, none, some, List, [], ◌∷◌, String, Result, ok, err, ◌>>=◌,
  ◌>>◌, fail_if, keep_if, any_of,
}
use aero_arc_conformance.Domain.Time.{Time, Duration, is_zero, from_unix_nano}
use aero_arc_conformance.Store.Tables.{
  Row, Tables, Codec, StoreError, is_current, has_key, update_where,
}
use aero_arc_conformance.Worker.Claim.{Claim}

-- column = $n, column < now() and their like, which a missing value fails.
abbrev pub holds_for {ℓ} : {A : Type ℓ} → (A → Bool) → Option A → Bool
holds_for p none = false
holds_for p (some a) = p a

-- The number of rows that an UPDATE ... WHERE p reports.
abbrev pub count_where {ℓ} : {A : Type ℓ} → (A → Bool) → List A → ℕ
count_where p [] = 0
count_where p (r ∷ rs) = if p r then suc (count_where p rs) else count_where p rs

-- The lease is free: lease_until IS NULL OR lease_until < now().
abbrev is_free : Time → Option Time → Bool
is_free now none = true
is_free now (some until) = ltb until now

abbrev pub released : Row → Row
released r = record r { lease_owner = none; lease_until = none }

-- ORDER BY next_evaluation_at, of which PostgreSQL may order equal entries as it likes: here the
-- order of the table.
unfoldable pub insert_due : Row → List Row → List Row
insert_due r [] = r ∷ []
insert_due r (x ∷ xs) =
    let rest = insert_due r xs in
    if ltb x.next_evaluation_at r.next_evaluation_at then x ∷ rest else r ∷ x ∷ xs

unfoldable pub sort_due : List Row → List Row
unfolding insert_due
sort_due [] = []
sort_due (r ∷ rs) = insert_due r (sort_due rs)

abbrev pub limited {ℓ} : {A : Type ℓ} → ℕ → List A → List A
limited limit [] = []
limited ℕ.zero (x ∷ xs) = []
limited (suc limit) (x ∷ xs) = x ∷ limited limit xs

abbrev pub same_key : Row → Row → Bool
same_key r s = has_key s.assignment.id s.assignment.generation r

module _ (codec : Codec) (now : Time) where
  -- authority_until+$n::interval>=now().
  abbrev pub within_grace : Duration → Row → Bool
  within_grace grace r =
      holds_for (λ until. leb now (codec.plus_interval until grace)) r.authority_until_at

  -- The rows that `due` selects. `locked` are those that another transaction holds.
  unfoldable pub is_due : Duration → (Row → Bool) → Row → Bool
  is_due grace locked r =
      is_current r.lifecycle
      && within_grace grace r
      && leb r.next_evaluation_at now
      && is_free now r.lease_until
      && not (locked r)

  unfoldable pub due_rows : Duration → (Row → Bool) → ℕ → List Row → List Row
  unfolding is_due sort_due
  due_rows grace locked limit rows = limited limit (sort_due (keep_if (is_due grace locked) rows))

  abbrev pub leased : String → Duration → Row → Row
  leased worker_id lease r = record r {
    lease_owner = some worker_id;
    lease_generation = suc r.lease_generation;
    lease_until = some (codec.plus_interval now lease);
  }

  -- A row that `claimed` returns, scanned. A null bound of its authority is a scan error.
  abbrev scan_times :
      Row
      → Option ℕ
      → Option ℕ
      → Option Time
      → (Time → Time → Time → Claim)
      → Result StoreError Claim
  scan_times r (some from) (some until) (some lease) k =
      ok (k (from_unix_nano from) (from_unix_nano until) lease)
  scan_times r _ _ _ k = err StoreError.corrupt_row

  unfoldable pub claim_of : String → Duration → Row → Result StoreError Claim
  claim_of worker_id grace r =
      scan_times r r.authority_from r.authority_until r.lease_until (λ from until lease. record {
        assignment = r.assignment;
        authority_from = from;
        authority_until = until;
        finalization_grace = grace;
        worker_id = worker_id;
        lease_generation = r.lease_generation;
        lease_until = lease;
        evaluation_revision = r.evaluation_revision;
      })

  unfoldable pub scan_claims :
      String → Duration → (Row → Bool) → List Row → Result StoreError (List Claim)
  unfolding claim_of
  scan_claims worker_id grace claimed [] = ok []
  scan_claims worker_id grace claimed (r ∷ rs) =
      let rest = scan_claims worker_id grace claimed rs in
      if claimed r then (claim_of worker_id grace r >>= λ c. rest >>= λ cs. ok (c ∷ cs)) else rest

  abbrev pub claim_rows :
      String → Duration → Duration → List Row → Tables → Tables × Result StoreError (List Claim)
  claim_rows worker_id lease grace due s =
      let claimed = λ (r : Row). any_of (same_key r) due in
      let rows = update_where claimed (leased worker_id lease) s.assignments in
      (record s { assignments = rows }, scan_claims worker_id grace claimed rows)

  -- The statement has taken the leases when a row fails to scan.
  unfoldable pub claim_due_assignments_with_finalization_grace :
      (Row → Bool)
      → Tables
      → String
      → Duration
      → Duration
      → ℤ
      → Tables × Result StoreError (List Claim)
  unfolding due_rows scan_claims
  claim_due_assignments_with_finalization_grace locked s worker_id lease grace limit =
      if worker_id == "" || leb_ℤ lease (pos 0) || ltb_ℤ grace (pos 0) || ltb_ℤ limit (pos 1)
      then (s, err StoreError.invalid_arguments)
      else claim_rows worker_id lease grace (due_rows grace locked (pos_part limit) s.assignments) s

  unfoldable pub claim_due_assignments :
      (Row → Bool) → Tables → String → Duration → ℤ → Tables × Result StoreError (List Claim)
  unfolding claim_due_assignments_with_finalization_grace
  claim_due_assignments locked s worker_id lease limit =
      claim_due_assignments_with_finalization_grace locked s worker_id lease (pos 0) limit

  -- The row is the claim's and its lease has not run out.
  unfoldable pub owns : Claim → Row → Bool
  owns c r =
      has_key c.assignment.id c.assignment.generation r
      && holds_for (λ owner. owner == c.worker_id) r.lease_owner
      && r.lease_generation == c.lease_generation
      && holds_for (λ until. ltb now until) r.lease_until
      && is_current r.lifecycle

  abbrev pub owns_revision : Claim → Row → Bool
  owns_revision c r = owns c r && r.evaluation_revision == c.evaluation_revision

  -- An UPDATE that must affect one row, or the lease is lost.
  unfoldable pub update_owned : (Row → Bool) → (Row → Row) → Tables → Result StoreError Tables
  update_owned p f s =
      fail_if (not (count_where p s.assignments == 1)) StoreError.lease_lost
      >> ok (record s { assignments = update_where p f s.assignments })

  unfoldable pub defer_assignment_evaluation : Tables → Claim → Time → Result StoreError Tables
  unfolding owns update_owned
  defer_assignment_evaluation s c next =
      fail_if (is_zero next) StoreError.invalid_arguments
      >> update_owned (λ r. owns_revision c r && within_grace c.finalization_grace r)
          (λ r. record (released r) { next_evaluation_at = codec.timestamptz next }) s

  unfoldable pub renew_assignment_lease : Tables → Claim → Duration → Result StoreError Tables
  unfolding owns update_owned
  renew_assignment_lease s c extension =
      fail_if (leb_ℤ extension (pos 0)) StoreError.invalid_arguments
      >> update_owned (λ r. owns c r && within_grace c.finalization_grace r)
          (λ r. record r { lease_until = some (codec.plus_interval now extension) }) s
