-- ===== src/Store/Monotone.antt =====
-- No evaluation lowers the lease generation or the revision of an assignment: deferrals, renewals and commits of
-- internal/store/postgres/store.go.
use mathlib.Core.Path.{subst}
use aero_arc_conformance.Prelude.{
  ◌≤◌, inl, inr, Bool-cases, ℕ, pos, suc, ◌≡◌, refl, sym, ap, ◌∙◌, Bool, true, false, not, ◌&&◌,
  ◌||◌, ◌==◌, nat_eq, string_eq, ltb, leb, leb_ℤ, Option, none, some, List, [], ◌∷◌, ok, ◌>>◌,
  fail_if, All, arith, >>=-elim, ok_injective, >>=-eq-ok, err-not_ok,
}
use aero_arc_conformance.Domain.Time.{Time, Duration, is_zero, supported_unix_nanoseconds}
use aero_arc_conformance.Domain.Assignment.{Assignment}
use aero_arc_conformance.Domain.Incident.{Evaluation, IncidentTransition}
use aero_arc_conformance.Store.Rows.{IncidentRow, EventRow}
use aero_arc_conformance.Store.Tables.{
  Row, Tables, Codec, StoreError, update_where, first, max_int64,
}
use aero_arc_conformance.Store.Leases.{
  count_where, owns, owns_revision, update_owned, defer_assignment_evaluation,
  renew_assignment_lease, within_grace,
}
use aero_arc_conformance.Store.Commit.{EvaluationCommit, validate_evaluation_commit}
use aero_arc_conformance.Store.Write.{
  write_evaluation, write_confirmed, write_transitions, write_transition, check_watermark,
  newest_checkpoint, confirmed, encoded, insert_checkpoint, mutate_incident, insert_event,
  materialize, event_row, write_event,
}
use aero_arc_conformance.Store.Evaluations.{
  commit_evaluation, commit_historical_evaluation, commit_row, reconcile_row, within_returned,
  is_committed, is_consumed, consumed_row, evaluated_row, reconciled_row, is_historical,
}
use aero_arc_conformance.Worker.Claim.{Claim}

-- The writes of an evaluation leave the assignments alone.
module _ (codec : Codec) (a : Assignment) (revision : ℕ) (e : Evaluation) where
  -- What the incidents and the events do not determine.
  module _ {X : Type 0} (part : Tables → X)
      (apart : (s : Tables) (incidents : List IncidentRow) (events : List EventRow)
        → part (record s { incidents = incidents; events = events }) ≡ part s) where
    write_transition-keeps :
        (t : IncidentTransition) (s u : Tables)
        → write_transition codec a revision e t s ≡ ok u
        → part u ≡ part s
    unfolding write_transition write_event
    write_transition-keeps t s u =
        >>=-elim (mutate_incident codec a revision e t t.transition s.incidents) _ (λ found _.
          >>=-elim (encoded (codec.marshal_evidence found.0 t)) _ (λ text _.
            >>=-elim
              (insert_event codec a revision e
                (event_row codec a revision e t found.0 (codec.sha256_hex text)) found.1 s.events
                (first
                  (λ old.
                    old.event_id
                    == (event_row codec a revision e t found.0 (codec.sha256_hex text)).event_id)
                  s.events))
              _
              (λ events _.
                >>=-elim (materialize codec a revision e t t.transition found.0 found.1) _
                  (λ incidents _ h.
                    ap part (sym (ok_injective refl h)) ∙ apart s incidents events))))

    pub write_transitions-keeps :
        (ts : List IncidentTransition) (s u : Tables)
        → write_transitions codec a revision e ts s ≡ ok u
        → part u ≡ part s
    unfolding write_transitions
    write_transitions-keeps [] s u h = ap part (sym (ok_injective refl h))
    write_transitions-keeps (t ∷ ts) s u h =
        >>=-elim (write_transition codec a revision e t s) _
          (λ middle written rest.
            write_transitions-keeps ts middle u rest ∙ write_transition-keeps t s middle written)
          h

  write_confirmed-assignments :
      (now : Time) (publish_live : Bool) (s u : Tables)
      → write_confirmed codec a revision e now publish_live s ≡ ok u
      → u.assignments ≡ s.assignments
  unfolding write_confirmed
  write_confirmed-assignments now publish_live s u h =
      let written =
        encoded (codec.marshal_evaluation e)
        >> encoded (codec.marshal_state e.state)
        >> write_transitions codec a revision e e.transitions s in
      let (t, before, after) = >>=-eq-ok written _ h in
      let (_, _, transitions) =
        >>=-eq-ok (encoded (codec.marshal_evaluation e) >> encoded (codec.marshal_state e.state)) _
          before in
      >>=-elim (insert_checkpoint codec a revision e t.checkpoints) _
        (λ checkpoints _ last.
          ap (λ x. x.assignments) (sym (ok_injective refl last))
          ∙ write_transitions-keeps (λ x. x.assignments) (λ s i ev. refl) e.transitions s t
              transitions)
        after

pub write_evaluation-assignments :
    (codec : Codec) (now : Time) (s u : Tables) (a : Assignment) (revision : ℕ) (e : Evaluation)
    (allow_equal publish_live : Bool)
    → write_evaluation codec now s a revision e allow_equal publish_live ≡ ok u
    → u.assignments ≡ s.assignments
unfolding write_evaluation
write_evaluation-assignments codec now s u a revision e allow_equal publish_live h =
    >>=-elim (check_watermark e allow_equal (newest_checkpoint a.id a.generation s.checkpoints)) _
      (λ _ _ rest.
        write_confirmed-assignments codec a revision (confirmed e) now publish_live s u rest)
      h

-- The columns that the evaluations of an assignment do not lower.
pub record Grows (r t : Row) : Type 0 where
  pub same_assignment : t.assignment ≡ r.assignment
  pub lease_grows : r.lease_generation ≤ t.lease_generation
  pub revision_grows : r.evaluation_revision ≤ t.evaluation_revision

abbrev pub IsKept : (Row → Type 0) → Type 0
IsKept P = (r t : Row) → Grows r t → P r → P t

abbrev pub Keeps : (Row → Row) → Type 0
Keeps f =
    (r : Row)
    → ((f r).assignment ≡ r.assignment)
      × (r.lease_generation ≤ (f r).lease_generation)
      × (r.evaluation_revision ≤ (f r).evaluation_revision)

pub update_kept :
    (P : Row → Type 0) (kept : IsKept P) (p : Row → Bool) (f : Row → Row) (rs : List Row)
    → Keeps f
    → All P rs
    → All P (update_where p f rs)
update_kept P kept p f [] k h = tt
update_kept P kept p f (r ∷ rs) k h =
    let rest = update_kept P kept p f rs k h.1 in
    let (key, lease, revision) = k r in
    elim (Bool-cases (p r)) [
      | inl selected ↦ rw selected (
        kept r (f r)
            (record { same_assignment = key; lease_grows = lease; revision_grows = revision }) h.0,
        rest,
      )
      | inr left ↦ rw left (h.0, rest)
    ]

module _ (codec : Codec) (now : Time) (P : Row → Type 0) (kept : IsKept P) where
  update_owned_kept :
      (p : Row → Bool) (f : Row → Row) (s t : Tables)
      → Keeps f
      → update_owned codec now p f s ≡ ok t
      → All P s.assignments
      → All P t.assignments
  unfolding update_owned
  update_owned_kept p f s t k h h0 =
      >>=-elim (fail_if (not (count_where p s.assignments == 1)) StoreError.lease_lost) _
        (λ _ _ rest.
          subst (λ (x : Tables). All P x.assignments) (ok_injective refl rest)
            (update_kept P kept p f s.assignments k h0))
        h

  pub defer_kept :
      (s t : Tables) (c : Claim) (next : Time)
      → defer_assignment_evaluation codec now s c next ≡ ok t
      → All P s.assignments
      → All P t.assignments
  unfolding defer_assignment_evaluation
  defer_kept s t c next h h0 =
      >>=-elim (fail_if (is_zero next) StoreError.invalid_arguments) _
        (λ _ _ rest.
          update_owned_kept
            (λ r. owns_revision codec now c r && within_grace codec now c.finalization_grace r)
            (λ r. record r {
              lease_owner = none;
              lease_until = none;
              next_evaluation_at = codec.timestamptz next;
            })
            s t (λ r. (refl, omega arith, omega arith)) rest h0)
        h

  pub renew_kept :
      (s t : Tables) (c : Claim) (extension : Duration)
      → renew_assignment_lease codec now s c extension ≡ ok t
      → All P s.assignments
      → All P t.assignments
  unfolding renew_assignment_lease
  renew_kept s t c extension h h0 =
      >>=-elim (fail_if (leb_ℤ extension (pos 0)) StoreError.invalid_arguments) _
        (λ _ _ rest.
          update_owned_kept
            (λ r. owns codec now c r && within_grace codec now c.finalization_grace r)
            (λ r. record r { lease_until = some (codec.plus_interval now extension) }) s t
            (λ r. (refl, omega arith, omega arith)) rest h0)
        h

  commit_row_kept :
      (s t : Tables) (c : Claim) (commit : EvaluationCommit) (found : Option Row)
      → commit_row codec now s c commit found ≡ ok t
      → All P s.assignments
      → All P t.assignments
  unfolding commit_row
  commit_row_kept s t c commit none h h0 = absurd (err-not_ok _ t h)
  commit_row_kept s t c commit (some r) h h0 =
      let moved =
        update_where (is_committed codec now c commit.evaluation)
          (evaluated_row codec now commit.next_evaluation_at) s.assignments in
      >>=-elim (within_returned codec now commit.evaluation r.authority_from r.authority_until) _
        (λ _ _ rest.
          subst (All P)
            (sym (
              write_evaluation-assignments codec now (record s { assignments = moved }) t
                c.assignment (suc r.evaluation_revision) commit.evaluation false true rest))
            (update_kept P kept (is_committed codec now c commit.evaluation)
              (evaluated_row codec now commit.next_evaluation_at) s.assignments
              (λ r. (refl, omega arith, omega arith)) h0))
        h

  pub commit_kept :
      (s t : Tables) (c : Claim) (commit : EvaluationCommit)
      → commit_evaluation codec now s c commit ≡ ok t
      → All P s.assignments
      → All P t.assignments
  unfolding commit_evaluation
  commit_kept s t c commit h h0 =
      >>=-elim (validate_evaluation_commit commit) _
        (λ _ _ rest.
          commit_row_kept s t c commit
            (first (is_committed codec now c commit.evaluation) s.assignments) rest h0)
        h

  reconcile_row_kept :
      (s t : Tables) (p : Row → Bool) (commit : EvaluationCommit) (found : Option Row)
      → reconcile_row codec now s p commit found ≡ ok t
      → All P s.assignments
      → All P t.assignments
  unfolding reconcile_row
  reconcile_row_kept s t p commit none h h0 = absurd (err-not_ok _ t h)
  reconcile_row_kept s t p commit (some r) h h0 =
      let moved = update_where p (reconciled_row codec now) s.assignments in
      >>=-elim (within_returned codec now commit.evaluation r.authority_from r.authority_until) _
        (λ _ _ rest.
          subst (All P)
            (sym (
              write_evaluation-assignments codec now (record s { assignments = moved }) t
                r.assignment (suc r.evaluation_revision) commit.evaluation true false rest))
            (update_kept P kept p (reconciled_row codec now) s.assignments
              (λ r. (refl, omega arith, omega arith)) h0))
        h

  pub reconcile_kept :
      (s t : Tables) (c : Claim) (generation : ℕ) (commit : EvaluationCommit)
      → commit_historical_evaluation codec now s c generation commit ≡ ok t
      → All P s.assignments
      → All P t.assignments
  unfolding commit_historical_evaluation
  reconcile_kept s t c generation commit h h0 =
      let guards =
        validate_evaluation_commit commit
        >> fail_if
            (generation == 0
              || ltb max_int64 generation
              || leb c.assignment.generation generation
              || not (supported_unix_nanoseconds commit.evaluation.observed_at))
            StoreError.invalid_target in
      let p : Row → Bool = is_historical codec now c.assignment.id generation commit.evaluation in
      let (u, updated, reconciled) =
        >>=-eq-ok
          (guards
            >> update_owned codec now (is_consumed codec now c)
                (consumed_row codec now commit.next_evaluation_at) s)
          (λ (u : Tables). reconcile_row codec now u p commit (first p u.assignments)) h in
      >>=-elim guards _
        (λ _ _ owned. reconcile_row_kept u t p commit (first p u.assignments) reconciled (
          update_owned_kept (is_consumed codec now c)
            (consumed_row codec now commit.next_evaluation_at) s u
            (λ r. (refl, omega arith, omega arith)) owned h0))
        updated
