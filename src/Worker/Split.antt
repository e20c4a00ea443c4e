-- ===== src/Worker/Split.antt =====
-- Reading a window by halves: `readComplete` of internal/worker/evaluation.go.
use aero_arc_conformance.Prelude.{
  ℕ, pos, negsuc, zero, suc, ◌+◌, ◌-◌, ◌/◌, Bool, true, false, not, ◌||◌, ◌==◌, string_eq, nat_eq,
  if◌then◌else◌, List, [], ◌∷◌, ◌++◌, String, any_of, Result, ok, err, ◌>>=◌,
}
use aero_arc_conformance.Domain.Time.{Time, Duration, add, sub, after}
use aero_arc_conformance.Domain.Assignment.{Observation}
use aero_arc_conformance.Worker.Claim.{WorkerError, window_saturated}

pub record RowRejection : Type 0 where
  pub frame_id : String
  pub reason : String

pub record ReadResult : Type 0 where
  pub observations : List Observation
  pub rejections : List RowRejection

-- The error of a read, or that the model's own fuel ran out.
pub data SplitError : Type 0 where
  failed : WorkerError → SplitError
  out_of_fuel : SplitError

-- A Duration divided by two, towards zero.
abbrev pub half : Duration → Duration
half (pos n) = pos (n / 2)
half (negsuc n) = if (n + 1) / 2 == 0 then pos 0 else negsuc ((n + 1) / 2 - 1)

unfoldable pub middle_of : Time → Time → Time
middle_of start end = add start (half (sub end start))

-- The map `seenFrames` as the list of its keys; the first observation of a frame stays.
unfoldable pub deduplicate : List String → List Observation → List Observation
deduplicate seen [] = []
deduplicate seen (o ∷ os) =
    let skipped = deduplicate seen os in
    let kept = o ∷ deduplicate (o.frame_id ∷ seen) os in
    if any_of (λ f. f == o.frame_id) seen then skipped else kept

abbrev pub is_saturated : Result WorkerError ReadResult → Bool
is_saturated (err window_saturated) = true
is_saturated _ = false

abbrev pub as_split : Result WorkerError ReadResult → Result SplitError ReadResult
as_split (ok r) = ok r
as_split (err e) = err (failed e)

unfoldable pub joined : ReadResult → ReadResult → ReadResult
unfolding deduplicate
joined left right = record {
  observations = deduplicate [] (left.observations ++ right.observations);
  rejections = left.rejections ++ right.rejections;
}

module _ (read_positions : Time → Time → Result WorkerError ReadResult) where
  unfoldable pub read_complete : ℕ → Time → Time → Result SplitError ReadResult
  unfolding middle_of joined
  read_complete zero start end = err out_of_fuel
  read_complete (suc fuel) start end =
      let result = read_positions start end in
      let middle = middle_of start end in
      let halves = read_complete fuel start middle >>= λ left.
      read_complete fuel middle end >>= λ right. ok (joined left right) in
      if not (is_saturated result)
      then as_split result
      else if not (after middle start) || not (after end middle)
      then err (failed window_saturated)
      else halves
