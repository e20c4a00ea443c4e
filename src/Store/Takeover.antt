-- ===== src/Store/Takeover.antt =====
-- A claim that has been taken over, whatever claims, deferrals, renewals and commits follow: the lease
-- fence of internal/store/postgres/store.go.
use mathlib.Core.Bool.{true≢false}
use mathlib.Core.Path.{subst}
use aero_arc_conformance.Prelude.{
  ℕ, ℤ, pos, ◌≡◌, ◌≢◌, refl, sym, ◌∙◌, inl, inr, Bool, true, ◌&&◌, ◌||◌, ◌==◌, nat_eq, string_eq,
  ltb_ℤ, leb_ℤ, pos_part, if◌then◌else◌, List, [], ◌∷◌, String, ok, any_of, All, arith, Bool-cases,
  >>=-elim, ok_injective, err-not_ok, and_split, ==→eq,
}
use aero_arc_conformance.Domain.Time.{Time, Duration}
use aero_arc_conformance.Store.Tables.{Row, Tables, Codec, update_where}
use aero_arc_conformance.Store.Leases.{
  same_key, leased, scan_claims, claim_of, claim_rows, due_rows,
  claim_due_assignments_with_finalization_grace, defer_assignment_evaluation,
  renew_assignment_lease,
}
use aero_arc_conformance.Store.Commit.{EvaluationCommit}
use aero_arc_conformance.Store.Evaluations.{commit_evaluation, commit_historical_evaluation}
use aero_arc_conformance.Store.Fencing.{
  is_row_of, LeasedAgain, LeasedOnce, IsStale, IsIssued, defer-stale, renew-stale, commit-stale,
  reconcile-stale,
}
use aero_arc_conformance.Store.Monotone.{
  IsKept, update_kept, defer_kept, renew_kept, commit_kept, reconcile_kept,
}
use aero_arc_conformance.Worker.Claim.{Claim}

-- A claim of the assignment and generation that `old` is about.
abbrev pub is_claim_of : Claim → Claim → Bool
is_claim_of old c =
    c.assignment.id == old.assignment.id && c.assignment.generation == old.assignment.generation

module _ (codec : Codec) (now : Time) (P : Row → Type 0) (kept : IsKept P) (worker_id : String)
    (lease grace : Duration) where
  claim_kept :
      (locked : Row → Bool) (s : Tables) (limit : ℤ)
      → All P s.assignments
      → All P
          (claim_due_assignments_with_finalization_grace codec now locked s worker_id lease grace
            limit).0.assignments
  unfolding claim_due_assignments_with_finalization_grace
  claim_kept locked s limit h0 =
      elim (Bool-cases
        (worker_id == "" || leb_ℤ lease (pos 0) || ltb_ℤ grace (pos 0) || ltb_ℤ limit (pos 1))) [
          | inl refused ↦ rw refused h0
          | inr claims ↦ rw claims (
              update_kept P kept
                (λ r.
                  any_of (same_key r)
                    (due_rows codec now grace locked (pos_part limit) s.assignments))
                (leased codec now worker_id lease) s.assignments
                (λ r. (refl, omega arith, omega arith)) h0)
        ]

module _ (codec : Codec) (now : Time) (old : Claim) (worker_id : String)
    (lease grace : Duration) where
  claim_of-key :
      (r : Row) (c : Claim)
      → claim_of codec now worker_id grace r ≡ ok c
      → c.assignment ≡ r.assignment
  unfolding claim_of
  claim_of-key r c h = ground arith

  claim-is_row_of :
      (r : Row) (c : Claim)
      → claim_of codec now worker_id grace r ≡ ok c
      → is_claim_of old c ≡ true
      → is_row_of old r ≡ true
  claim-is_row_of r c h k =
      subst (λ a. (a.id == old.assignment.id && a.generation == old.assignment.generation) ≡ true)
        (claim_of-key r c h) k

  -- A claim that is returned comes from a row that was claimed.
  scan-claimed :
      (claimed : Row → Bool) (rs : List Row) (cs : List Claim)
      → scan_claims codec now worker_id grace claimed rs ≡ ok cs
      → any_of (is_claim_of old) cs ≡ true
      → (r : Row) × (is_row_of old r ≡ true) × (claimed r ≡ true)
  unfolding scan_claims
  scan-claimed claimed [] cs h k = absurd (
      true≢false
        (sym (subst (λ cs. any_of (is_claim_of old) cs ≡ true) (sym (ok_injective refl h)) k)))
  scan-claimed claimed (r ∷ rs) cs h k = elim (Bool-cases (claimed r)) [
    | inr skipped ↦ scan-claimed claimed rs cs (rw skipped at h) k
    | inl taken ↦
        >>=-elim (claim_of codec now worker_id grace r) _
          (λ c first rest.
            >>=-elim (scan_claims codec now worker_id grace claimed rs) _
              (λ more scanned last.
                let found : any_of (is_claim_of old) (c ∷ more) ≡ true =
                  subst (λ cs. any_of (is_claim_of old) cs ≡ true) (sym (ok_injective refl last))
                    k in
                elim (Bool-cases (is_claim_of old c)) [
                  | inl this ↦ (r, claim-is_row_of r c first this, taken)
                  | inr other ↦ scan-claimed claimed rs more scanned (rw other at found)
                ])
              rest)
          (rw taken at h)
  ]

-- Whether a row is claimed depends on its key only.
claimed_alike :
    (old : Claim) (due : List Row) (r s : Row)
    → is_row_of old r ≡ true
    → is_row_of old s ≡ true
    → any_of (same_key r) due ≡ any_of (same_key s) due
claimed_alike old due r s h k =
    let (id_r, gen_r) = and_split _ _ h in
    let (id_s, gen_s) = and_split _ _ k in
    let same_id : r.assignment.id ≡ s.assignment.id =
      ==→eq r.assignment.id old.assignment.id id_r
      ∙ sym (==→eq s.assignment.id old.assignment.id id_s) in
    let same_generation : r.assignment.generation ≡ s.assignment.generation =
      ==→eq r.assignment.generation old.assignment.generation gen_r
      ∙ sym (==→eq s.assignment.generation old.assignment.generation gen_s) in
    λ i.
      any_of
        (λ (d : Row). same_id i == d.assignment.id && same_generation i == d.assignment.generation)
        due

leased-IsStale :
    (codec : Codec) (now : Time) (old : Claim) (worker_id : String) (lease : Duration)
    (claimed : Row → Bool) (rs : List Row)
    → ((r : Row) → is_row_of old r ≡ true → claimed r ≡ true)
    → All (LeasedOnce old) rs
    → All (LeasedAgain old) (update_where claimed (leased codec now worker_id lease) rs)
leased-IsStale codec now old worker_id lease claimed [] k h = tt
leased-IsStale codec now old worker_id lease claimed (r ∷ rs) k h =
    (leased_again, leased-IsStale codec now old worker_id lease claimed rs k h.1)
  where
    leased_again : LeasedAgain old (if claimed r then leased codec now worker_id lease r else r)
    leased_again = elim (Bool-cases (claimed r)) [
      | inl taken ↦ rw taken (λ same. omega (arith, h.0 same))
      | inr skipped ↦ rw skipped (λ same. absurd (true≢false (sym (k r same) ∙ skipped)))
    ]

claim_rows-IsStale :
    (codec : Codec) (now : Time) (old : Claim) (worker_id : String) (lease grace : Duration)
    (due : List Row) (s : Tables) (claims : List Claim)
    → (claim_rows codec now worker_id lease grace due s).1 ≡ ok claims
    → any_of (is_claim_of old) claims ≡ true
    → IsIssued old s
    → IsStale old (claim_rows codec now worker_id lease grace due s).0
claim_rows-IsStale codec now old worker_id lease grace due s claims h k issued =
    let claimed : Row → Bool = λ r. any_of (same_key r) due in
    let (row, own, taken) =
      scan-claimed codec now old worker_id lease grace claimed
        (update_where claimed (leased codec now worker_id lease) s.assignments) claims h k in
    leased-IsStale codec now old worker_id lease claimed s.assignments
      (λ r same. claimed_alike old due r row same own ∙ taken) issued

-- The claim is returned again, so that the old one is stale.
claim-again-IsStale :
    (codec : Codec) (now : Time) (locked : Row → Bool) (s : Tables) (old : Claim)
    (worker_id : String) (lease grace : Duration) (limit : ℤ) (claims : List Claim)
    → (claim_due_assignments_with_finalization_grace codec now locked s worker_id lease grace
        limit).1
      ≡ ok claims
    → any_of (is_claim_of old) claims ≡ true
    → IsIssued old s
    → IsStale old
        (claim_due_assignments_with_finalization_grace codec now locked s worker_id lease grace
          limit).0
unfolding claim_due_assignments_with_finalization_grace
claim-again-IsStale codec now locked s old worker_id lease grace limit claims h k issued =
    elim (Bool-cases
      (worker_id == "" || leb_ℤ lease (pos 0) || ltb_ℤ grace (pos 0) || ltb_ℤ limit (pos 1))) [
        | inl refused ↦ absurd (err-not_ok _ claims (rw refused at h))
        | inr claiming ↦ rw claiming (
            claim_rows-IsStale codec now old worker_id lease grace
              (due_rows codec now grace locked (pos_part limit) s.assignments) s claims
              (rw claiming at h) k issued)
      ]

-- What the workers do to the tables, each at its own database time.
pub data WorkerStep (codec : Codec) (s : Tables) : Tables → Type 0 where
  claims_due :
      (now : Time) (locked : Row → Bool) (worker_id : String) (lease grace : Duration) (limit : ℤ)
      → WorkerStep codec s
          (claim_due_assignments_with_finalization_grace codec now locked s worker_id lease grace
            limit).0
  defers :
      {t : Tables} (now : Time) (c : Claim) (next : Time)
      → defer_assignment_evaluation codec now s c next ≡ ok t
      → WorkerStep codec s t
  renews :
      {t : Tables} (now : Time) (c : Claim) (extension : Duration)
      → renew_assignment_lease codec now s c extension ≡ ok t
      → WorkerStep codec s t
  commits :
      {t : Tables} (now : Time) (c : Claim) (commit : EvaluationCommit)
      → commit_evaluation codec now s c commit ≡ ok t
      → WorkerStep codec s t
  reconciles :
      {t : Tables} (now : Time) (c : Claim) (generation : ℕ) (commit : EvaluationCommit)
      → commit_historical_evaluation codec now s c generation commit ≡ ok t
      → WorkerStep codec s t

pub data WorkerSteps (codec : Codec) (s : Tables) : Tables → Type 0 where
  no_step : WorkerSteps codec s s
  next_step : {t u : Tables} → WorkerSteps codec s t → WorkerStep codec t u → WorkerSteps codec s u

WorkerStep_kept :
    (codec : Codec) (P : Row → Type 0) (kept : IsKept P) (s t : Tables)
    → WorkerStep codec s t
    → All P s.assignments
    → All P t.assignments
WorkerStep_kept codec P kept s _ (claims_due now locked worker_id lease grace limit) h =
    claim_kept codec now P kept worker_id lease grace locked s limit h
WorkerStep_kept codec P kept s t (defers now c next e) h =
    defer_kept codec now P kept s t c next e h
WorkerStep_kept codec P kept s t (renews now c extension e) h =
    renew_kept codec now P kept s t c extension e h
WorkerStep_kept codec P kept s t (commits now c commit e) h =
    commit_kept codec now P kept s t c commit e h
WorkerStep_kept codec P kept s t (reconciles now c generation commit e) h =
    reconcile_kept codec now P kept s t c generation commit e h

-- What grows with the lease generation and the revision is kept by every step.
pub WorkerSteps_kept :
    (codec : Codec) (P : Row → Type 0) (kept : IsKept P) (s t : Tables)
    → WorkerSteps codec s t
    → All P s.assignments
    → All P t.assignments
WorkerSteps_kept codec P kept s _ no_step h = h
WorkerSteps_kept codec P kept s u (next_step {t = t} path step) h =
    WorkerStep_kept codec P kept t u step (WorkerSteps_kept codec P kept s t path h)

LeasedAgain-IsKept : (old : Claim) → IsKept (LeasedAgain old)
LeasedAgain-IsKept old r t g h same =
    let lease = g.lease_grows in
    let earlier : is_row_of old r ≡ true = rw (sym g.same_assignment) same in
    omega (arith, h earlier, lease)

-- Every use of the claim fails.
pub record IsRefused (codec : Codec) (s : Tables) (c : Claim) : Type 0 where
  pub not_deferred :
      (now next : Time) (t : Tables) → defer_assignment_evaluation codec now s c next ≢ ok t
  pub not_renewed :
      (now : Time) (extension : Duration) (t : Tables)
      → renew_assignment_lease codec now s c extension ≢ ok t
  pub not_committed :
      (now : Time) (commit : EvaluationCommit) (t : Tables)
      → commit_evaluation codec now s c commit ≢ ok t
  pub not_reconciled :
      (now : Time) (generation : ℕ) (commit : EvaluationCommit) (t : Tables)
      → commit_historical_evaluation codec now s c generation commit ≢ ok t

-- Once an assignment that a claim was issued for has been claimed again, the old claim is fenced out
-- for good: after whatever claims, deferrals, renewals and commits follow, it can neither defer, renew
-- nor commit, live or historical. Issued means that no row of the assignment and generation has a
-- lease generation before the claim's.
pub claim-IsRefused :
    (codec : Codec) (now : Time) (locked : Row → Bool) (s t : Tables) (old : Claim)
    (worker_id : String) (lease grace : Duration) (limit : ℤ) (claims : List Claim)
    → IsIssued old s
    → (claim_due_assignments_with_finalization_grace codec now locked s worker_id lease grace
        limit).1
      ≡ ok claims
    → any_of (is_claim_of old) claims ≡ true
    → WorkerSteps codec
        (claim_due_assignments_with_finalization_grace codec now locked s worker_id lease grace
          limit).0
        t
    → IsRefused codec t old
claim-IsRefused codec now locked s t old worker_id lease grace limit claims issued h k path =
    let stale : IsStale old t =
      WorkerSteps_kept codec (LeasedAgain old) (LeasedAgain-IsKept old)
        (claim_due_assignments_with_finalization_grace codec now locked s worker_id lease grace
          limit).0
        t path
        (claim-again-IsStale codec now locked s old worker_id lease grace limit claims h k
          issued) in
    record {
      not_deferred = λ now next u. defer-stale codec now old t u next stale;
      not_renewed = λ now extension u. renew-stale codec now old t u extension stale;
      not_committed = λ now commit u. commit-stale codec now old t u commit stale;
      not_reconciled =
          λ now generation commit u. reconcile-stale codec now old t u generation commit stale;
    }
