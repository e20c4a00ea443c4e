-- ===== src/Store/Once.antt =====
-- A claim is spent by its commit: `CommitEvaluation` of internal/store/postgres/store.go.
use mathlib.Core.Path.{subst}
use mathlib.Core.Bool.{true≢false}
use aero_arc_conformance.Prelude.{
  ◌<◌, All, if◌then◌else◌, sym, >>=-eq-ok, suc, ◌≤◌, ◌≡◌, ◌≢◌, refl, ◌∙◌, inl, inr, true, false,
  nat_eq, string_eq, Option, none, some, List, [], ◌∷◌, ok, arith, Bool-cases, >>=-elim, err-not_ok,
}
use aero_arc_conformance.Domain.Time.{Time}
use aero_arc_conformance.Domain.Incident.{Evaluation}
use aero_arc_conformance.Store.Tables.{Row, Tables, Codec, StoreError, update_where, first}
use aero_arc_conformance.Store.Leases.{owns, count_where}
use aero_arc_conformance.Store.Fencing.{is_row_of}
use aero_arc_conformance.Store.Takeover.{WorkerSteps, WorkerSteps_kept}
use aero_arc_conformance.Store.Commit.{EvaluationCommit, validate_evaluation_commit}
use aero_arc_conformance.Store.Evaluations.{
  commit_evaluation, commit_row, within_returned, is_committed, evaluated_row,
}
use aero_arc_conformance.Store.Monotone.{IsKept, write_evaluation-assignments}
use aero_arc_conformance.Worker.Claim.{Claim}

-- The row's evaluation revision is past the claim's.
abbrev pub MovedOn : Claim → Row → Type 0
MovedOn c r = is_row_of c r ≡ true → c.evaluation_revision < r.evaluation_revision

MovedOn-IsKept : (c : Claim) → IsKept (MovedOn c)
MovedOn-IsKept c r t g h same =
    let revision = g.revision_grows in
    let earlier : is_row_of c r ≡ true = rw (sym g.same_assignment) same in
    omega (arith, h earlier, revision)

module _ (codec : Codec) (now : Time) (c : Claim) (e : Evaluation) where
  not_committed : (r : Row) → MovedOn c r → is_committed codec now c e r ≡ false
  unfolding owns
  not_committed r h = ground (arith, h)

  first-MovedOn :
      (rs : List Row) → All (MovedOn c) rs → first (is_committed codec now c e) rs ≡ none
  first-MovedOn [] h = refl
  first-MovedOn (r ∷ rs) h = rw (not_committed r h.0) (first-MovedOn rs h.1)

  committed-is_row_of : (r : Row) → is_committed codec now c e r ≡ true → is_row_of c r ≡ true
  unfolding owns
  committed-is_row_of r h = ground (arith, h)

  committed-MovedOn :
      (next : Time) (r : Row)
      → is_committed codec now c e r ≡ true
      → MovedOn c (evaluated_row codec now next r)
  unfolding owns
  committed-MovedOn next r h same = ground (arith, h)

  first-count :
      (rs : List Row) (found : Row)
      → first (is_committed codec now c e) rs ≡ some found
      → 1 ≤ count_where (is_row_of c) rs
  first-count [] found h = cc
  first-count (r ∷ rs) found h = elim (Bool-cases (is_committed codec now c e r)) [
    | inl here ↦ rw (committed-is_row_of r here) (omega arith)
    | inr elsewhere ↦ let rest = first-count rs found (rw elsewhere at h) in ground (arith, rest)
  ]

  kept_key :
      (next : Time) (r : Row)
      → is_row_of c (if is_committed codec now c e r then evaluated_row codec now next r else r)
        ≡ is_row_of c r
  kept_key next r = ground arith

  none-MovedOn :
      (next : Time) (rs : List Row)
      → count_where (is_row_of c) rs ≡ 0
      → All
          (MovedOn c)
          (update_where (is_committed codec now c e) (evaluated_row codec now next) rs)
  none-MovedOn next [] h = tt
  none-MovedOn next (r ∷ rs) h = elim (Bool-cases (is_row_of c r)) [
    | inl own ↦ absurd (omega (arith, rw own at h))
    | inr other ↦ (
      λ same. absurd (true≢false (sym same ∙ kept_key next r ∙ other)),
      none-MovedOn next rs (rw other at h),
    )
  ]

  -- The claim's row is the only one of its key, so that the commit moves every row of the key on.
  update-MovedOn :
      (next : Time) (rs : List Row) (found : Row)
      → count_where (is_row_of c) rs ≤ 1
      → first (is_committed codec now c e) rs ≡ some found
      → All
          (MovedOn c)
          (update_where (is_committed codec now c e) (evaluated_row codec now next) rs)
  update-MovedOn next [] found h k = cc
  update-MovedOn next (r ∷ rs) found h k = elim (Bool-cases (is_committed codec now c e r)) [
    | inl here ↦
        let own = committed-is_row_of r here in
        rw here (committed-MovedOn next r here, none-MovedOn next rs (omega (arith, rw own at h)))
    | inr elsewhere ↦
        let later = rw elsewhere at k in
        let counted = first-count rs found later in
        elim (Bool-cases (is_row_of c r)) [
          | inl own ↦ absurd (omega (arith, counted, rw own at h))
          | inr other ↦ rw elsewhere (
            λ same. absurd (true≢false (sym same ∙ other)),
            update-MovedOn next rs found (rw other at h) later,
          )
        ]
  ]

commit_row-assignments :
    (codec : Codec) (now : Time) (s t : Tables) (c : Claim) (commit : EvaluationCommit)
    (found : Option Row)
    → commit_row codec now s c commit found ≡ ok t
    → t.assignments
      ≡ update_where
          (is_committed codec now c commit.evaluation)
          (evaluated_row codec now commit.next_evaluation_at)
          s.assignments
unfolding commit_row
commit_row-assignments codec now s t c commit none h = absurd (err-not_ok _ t h)
commit_row-assignments codec now s t c commit (some r) h =
    >>=-elim (within_returned codec now commit.evaluation r.authority_from r.authority_until) _
      (λ _ _ rest.
        write_evaluation-assignments codec now
          (record s {
            assignments =
                update_where (is_committed codec now c commit.evaluation)
                  (evaluated_row codec now commit.next_evaluation_at) s.assignments;
          })
          t c.assignment (suc r.evaluation_revision) commit.evaluation false true rest)
      h

commit_row-MovedOn :
    (codec : Codec) (now : Time) (s t : Tables) (c : Claim) (commit : EvaluationCommit)
    (found : Option Row)
    → count_where (is_row_of c) s.assignments ≤ 1
    → first (is_committed codec now c commit.evaluation) s.assignments ≡ found
    → commit_row codec now s c commit found ≡ ok t
    → All (MovedOn c) t.assignments
unfolding commit_row
commit_row-MovedOn codec now s t c commit none unique f h =
    absurd (err-not_ok StoreError.lease_lost t h)
commit_row-MovedOn codec now s t c commit (some r) unique f h =
    subst (All (MovedOn c)) (sym (commit_row-assignments codec now s t c commit (some r) h)) (
      update-MovedOn codec now c commit.evaluation commit.next_evaluation_at s.assignments r unique
        f)

-- A claim commits at most once. Where its commit has succeeded on a table that has at most one row of
-- the claim's assignment and generation, and whatever claims, deferrals, renewals and commits of any
-- workers follow, no commit of any evaluation under the claim succeeds, at whatever database time.
pub commit_evaluation-commit_evaluation :
    (codec : Codec) (now later : Time) (s t u v : Tables) (c : Claim)
    (commit next : EvaluationCommit)
    → count_where (is_row_of c) s.assignments ≤ 1
    → commit_evaluation codec now s c commit ≡ ok t
    → WorkerSteps codec t u
    → commit_evaluation codec later u c next ≢ ok v
unfolding commit_evaluation commit_row
commit_evaluation-commit_evaluation codec now later s t u v c commit next unique h path again =
    let (_, _, written) =
      >>=-eq-ok (validate_evaluation_commit commit)
        (λ _.
          commit_row codec now s c commit
            (first (is_committed codec now c commit.evaluation) s.assignments))
        h in
    let spent = WorkerSteps_kept codec (MovedOn c) (MovedOn-IsKept c) t u path (
      commit_row-MovedOn codec now s t c commit
        (first (is_committed codec now c commit.evaluation) s.assignments) unique refl written) in
    let (_, _, rest) =
      >>=-eq-ok (validate_evaluation_commit next)
        (λ _.
          commit_row codec later u c next
            (first (is_committed codec later c next.evaluation) u.assignments))
        again in
    err-not_ok StoreError.lease_lost v
      (rw (first-MovedOn codec later c next.evaluation u.assignments spent) at rest)
