-- ===== src/Store/Admits.antt =====
-- What the engine hands to a commit: `validateEvaluationWithinAuthority` and
-- `compareEvaluationCursor` of internal/store/postgres/store.go on an evaluation of
-- internal/worker/evaluation.go.
use aero_arc_conformance.Prelude.{
  ℕ, ◌≤◌, ◌<◌, ◌≡◌, refl, sym, ap, ◌∙◌, inl, inr, true, false, ◌!=◌, nat_eq, string_eq, str_lt, ltb,
  if◌then◌else◌, Option, none, some, List, [], ◌∷◌, String, ok, All, any_of, arith, str_lt_asymm,
  str_lt_irrefl,
}
use aero_arc_conformance.Domain.Time.{
  Time, UnixNano, supported_unix_nanoseconds, unix_nano, unix_nano-lt,
}
use aero_arc_conformance.Domain.Types.{ViolationType}
use aero_arc_conformance.Domain.Incident.{
  IncidentState, IncidentTransition, Evaluation, EvaluatorState, or_empty,
}
use aero_arc_conformance.Evaluator.Causal.{InWindow, Sound, SoundState, SoundTransition}
use text.Mathlib.TextEquality.{eq_iff}
use aero_arc_conformance.Domain.Assignment.{Observation}
use aero_arc_conformance.Worker.Claim.{Claim, ReplayCheckpoint}
use aero_arc_conformance.Worker.Fenced.{Fenced}
use aero_arc_conformance.Store.Commit.{
  is_bad_timestamp, is_bad_incident, is_bad_state, validate_evaluation_within_authority,
  compare_evaluation_cursor, Sign,
}
use aero_arc_conformance.Worker.Suffix.{is_evaluable, after_checkpoint}

module _ (lo hi until : Time) (low : supported_unix_nanoseconds lo ≡ true)
    (high : supported_unix_nanoseconds until ≡ true) where
  supported_between : (t : Time) → lo ≤ t → t < until → supported_unix_nanoseconds t ≡ true
  unfolding supported_unix_nanoseconds
  supported_between t h k = ground arith

  inside-good :
      (t : Time)
      → lo ≤ t
      → t ≤ hi
      → hi < until
      → is_bad_timestamp hi (unix_nano lo) (unix_nano until) t ≡ false
  unfolding is_bad_timestamp
  inside-good t h k l =
      let s = supported_between t h (omega arith) in
      ground (arith, s, unix_nano-lt t until s high, unix_nano-lt t lo s low)

  window-good :
      (t : Time)
      → InWindow lo hi t
      → hi < until
      → is_bad_timestamp hi (unix_nano lo) (unix_nano until) t ≡ false
  unfolding is_bad_timestamp
  window-good t (inl zero) l = rw zero refl
  window-good t (inr (h, k)) l = inside-good t h k l

  incident-good :
      (i : Option IncidentState)
      → Sound lo hi (or_empty i)
      → hi < until
      → is_bad_incident hi (unix_nano lo) (unix_nano until) i ≡ false
  unfolding is_bad_incident
  incident-good none s l = refl
  incident-good (some i) s l = ground (
    arith,
    window-good i.first_suspected_at s.suspected_in l,
    window-good i.opened_at s.opened_in l,
    window-good i.last_observed_at s.observed_in l,
  )

  state-good :
      (s : EvaluatorState)
      → SoundState lo hi s
      → hi < until
      → is_bad_state hi (unix_nano lo) (unix_nano until) s ≡ false
  unfolding is_bad_state
  state-good s k l = ground (
    arith,
    incident-good s.lateral (k ViolationType.lateral) l,
    incident-good s.vertical (k ViolationType.vertical) l,
    incident-good s.temporal (k ViolationType.temporal) l,
    incident-good s.telemetry_loss (k ViolationType.telemetry_loss) l,
  )

  transitions-good :
      (ts : List IncidentTransition)
      → All (SoundTransition lo hi) ts
      → hi < until
      → any_of (λ t. is_bad_timestamp hi (unix_nano lo) (unix_nano until) t.observed_at) ts ≡ false
  transitions-good [] k l = refl
  transitions-good (t ∷ ts) k l =
      ground
        (arith, inside-good t.observed_at k.0.at_least k.0.at_most l, transitions-good ts k.1 l)

-- Where the bounds of the authority can be stored, the store finds nothing outside the authority in
-- an evaluation that the worker fenced for that authority.
pub Fenced-validate_evaluation_within_authority :
    (claim : Claim) (c : Option ReplayCheckpoint) (e : Evaluation)
    → supported_unix_nanoseconds claim.authority_from ≡ true
    → supported_unix_nanoseconds claim.authority_until ≡ true
    → Fenced claim c e
    → validate_evaluation_within_authority e
        (unix_nano claim.authority_from)
        (unix_nano claim.authority_until)
      ≡ ok tt
unfolding validate_evaluation_within_authority
Fenced-validate_evaluation_within_authority claim c e low high f =
    let (from, until) : Time × Time = (claim.authority_from, claim.authority_until) in
    let order = unix_nano-lt from until low high in
    let watermark =
      inside-good from e.observed_at until low high e.observed_at
        (omega (arith, f.causal_start, f.causal_end)) (omega arith) f.inside in
    let causal =
      inside-good from e.observed_at until low high e.causal_from f.causal_start f.causal_end
        f.inside in
    let transitions =
      transitions-good from e.observed_at until low high e.transitions f.sound_transitions
        f.inside in
    let state = state-good from e.observed_at until low high e.state f.sound_state f.inside in
    let ends = f.inside in
    let starts = f.causal_start in
    let middle = f.causal_end in ground (arith, order, watermark, causal, transitions, state)

is_new_last :
    (claim : Claim) (c : ReplayCheckpoint) (o : Observation)
    → is_evaluable claim (some c) o ≡ true
    → after_checkpoint o c ≡ true
unfolding is_evaluable
is_new_last claim c o h = ground arith

-- The comparison of the cursor, on an observation.
abbrev compare_cursor : Observation → UnixNano → String → ℕ → String → Sign
compare_cursor o observed wal_id wal_sequence frame_id =
    if unix_nano o.observed_at != observed
    then (if ltb (unix_nano o.observed_at) observed then Sign.less else Sign.greater)
    else if o.wal_id != wal_id
    then (if str_lt o.wal_id wal_id then Sign.less else Sign.greater)
    else if o.wal_sequence != wal_sequence
    then (if ltb o.wal_sequence wal_sequence then Sign.less else Sign.greater)
    else if o.frame_id != frame_id
    then (if str_lt o.frame_id frame_id then Sign.less else Sign.greater)
    else Sign.equal

later_cursor :
    (o : Observation) (c : ReplayCheckpoint)
    → supported_unix_nanoseconds c.state_through_at ≡ true
    → supported_unix_nanoseconds o.observed_at ≡ true
    → after_checkpoint o c ≡ true
    → compare_cursor o (unix_nano c.state_through_at) c.wal_id c.wal_sequence c.frame_id
      ≡ Sign.greater
unfolding after_checkpoint
later_cursor o c stored seen new = ground (
  arith,
  unix_nano-lt o.observed_at c.state_through_at seen stored,
  unix_nano-lt c.state_through_at o.observed_at stored seen,
  str_lt_asymm c.wal_id o.wal_id,
  str_lt_asymm c.frame_id o.frame_id,
  str_lt_irrefl o.frame_id,
  eq_iff o.frame_id c.frame_id,
)

-- The watermark that the worker fenced behind a checkpoint compares as later than the checkpoint, so
-- that the store does not refuse it as stale.
pub Fenced-compare_evaluation_cursor :
    (claim : Claim) (c : ReplayCheckpoint) (e : Evaluation)
    → supported_unix_nanoseconds c.state_through_at ≡ true
    → supported_unix_nanoseconds e.observed_at ≡ true
    → Fenced claim (some c) e
    → compare_evaluation_cursor e (unix_nano c.state_through_at) c.wal_id c.wal_sequence c.frame_id
      ≡ Sign.greater
unfolding compare_evaluation_cursor is_evaluable after_checkpoint
Fenced-compare_evaluation_cursor claim c e stored supported f =
    let w = f.watermark in
    let new = is_new_last claim c f.last f.last_evaluable in
    let seen : supported_unix_nanoseconds f.last.observed_at ≡ true =
      sym (ap supported_unix_nanoseconds w.same_time) ∙ supported in
    rw w.same_time
      (rw w.same_frame (rw w.same_wal (rw w.same_sequence (later_cursor f.last c stored seen new))))
