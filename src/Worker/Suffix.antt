-- ===== src/Worker/Suffix.antt =====
-- The observations that a claim evaluates: `afterCheckpoint` and `evaluableSuffix` of
-- internal/worker/evaluation.go. Its `observationBefore` is the evaluator's, line for line.
use aero_arc_conformance.Prelude.{
  Bool, true, not, ◌||◌, ◌&&◌, ltb, ◌==◌, ◌!=◌, nat_eq, string_eq, str_lt, if◌then◌else◌, Option,
  none, some, List, [], ◌∷◌, keep_if,
}
use aero_arc_conformance.Domain.Time.{before, after}
use aero_arc_conformance.Domain.Assignment.{Observation}
use aero_arc_conformance.Evaluator.Batch.{observation_before}
use aero_arc_conformance.Worker.Claim.{Claim, ReplayCheckpoint}

unfoldable pub after_checkpoint : Observation → ReplayCheckpoint → Bool
after_checkpoint o c =
    if not (o.observed_at == c.state_through_at)
    then after o.observed_at c.state_through_at
    else if o.wal_id != c.wal_id
    then str_lt c.wal_id o.wal_id
    else if o.wal_sequence != c.wal_sequence
    then ltb c.wal_sequence o.wal_sequence
    else str_lt c.frame_id o.frame_id

-- The telemetry is attributed to the claimed assignment.
unfoldable pub is_attributed : Claim → Observation → Bool
is_attributed claim o = not (
    o.agent_id != claim.assignment.agent_id
    || o.flight_id != claim.assignment.flight_id
    || o.intent_id != claim.assignment.intent_id
    || o.intent_version != claim.assignment.intent_version)

unfoldable pub in_authority : Claim → Observation → Bool
in_authority claim o =
    not (
      before o.observed_at claim.authority_from || not (before o.observed_at claim.authority_until))

abbrev pub is_new : Option ReplayCheckpoint → Observation → Bool
is_new none o = true
is_new (some c) o = after_checkpoint o c

-- The three tests of the loop that lead to `continue`.
unfoldable pub is_evaluable : Claim → Option ReplayCheckpoint → Observation → Bool
unfolding is_attributed in_authority
is_evaluable claim checkpoint o =
    is_attributed claim o && (in_authority claim o && is_new checkpoint o)

-- sort.SliceStable: an observation goes in front of the first one that is not before it.
unfoldable pub insert : Observation → List Observation → List Observation
insert o [] = o ∷ []
insert o (x ∷ xs) = if observation_before x o then x ∷ insert o xs else o ∷ x ∷ xs

unfoldable pub sort_stable : List Observation → List Observation
unfolding insert
sort_stable [] = []
sort_stable (o ∷ os) = insert o (sort_stable os)

unfoldable pub evaluable_suffix :
    List Observation → Claim → Option ReplayCheckpoint → List Observation
unfolding is_evaluable sort_stable
evaluable_suffix observations claim checkpoint =
    sort_stable (keep_if (is_evaluable claim checkpoint) observations)
