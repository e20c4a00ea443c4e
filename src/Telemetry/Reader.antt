-- ===== src/Telemetry/Reader.antt =====
-- Reading the positions of aircraft in a window: `ReadPositions`, `uniqueIDs` and `missingColumn` of
-- internal/telemetry/influx/reader.go. The text of the query and its parameters are the runner's: it
-- gets the identities of a chunk and the window.
use aero_arc_conformance.Prelude.{
  ℕ, ℤ, pos, zero, suc, ◌-◌, Bool, true, false, not, ◌&&◌, ◌||◌, ◌==◌, string_eq, nat_eq, str_lt,
  leb, ltb_ℤ, pos_part, if◌then◌else◌, List, [], ◌∷◌, ◌++◌, String, is_empty, length, trim_space,
  any_of, Result, ok, err, ◌>>=◌, ◌>>◌, fail_if,
}
use Prim.Native.Char.{code}
use aero_arc_conformance.Domain.Time.{Time, is_zero, after}
use aero_arc_conformance.Domain.Assignment.{Observation}
use aero_arc_conformance.Store.Outbox.{sort_by}
use aero_arc_conformance.Worker.Suffix.{sort_stable}
use aero_arc_conformance.Worker.Split.{RowRejection, ReadResult, deduplicate}
use aero_arc_conformance.Telemetry.Decode.{
  Telemetry, Conversions, RowError, string_value, decode_observation,
}

pub data ReadError : Type 0 where
  invalid_window no_wal_identity saturated : ReadError
  query_failed : String → ReadError

-- The client's query: rows, or the text of its error. `lower` is strings.ToLower and `reason` the text of
-- a row's error.
pub record Runner : Type 0 where
  pub query : List String → Time → Time → Result String (List Telemetry)
  pub lower : String → String
  pub reason : RowError → String

pub record Reader : Type 0 where
  pub chunk_size : ℤ  -- int
  pub max_rows : ℤ  -- int

pub data ReaderError : Type 0 where
  invalid_reader : ReaderError

-- The tests of `NewWithRunner` on the sizes.
unfoldable pub new_with_runner : ℤ → ℤ → Result ReaderError Reader
new_with_runner chunk_size max_rows =
    if ltb_ℤ chunk_size (pos 1) || ltb_ℤ max_rows (pos 1)
    then err ReaderError.invalid_reader
    else ok (record { chunk_size = chunk_size; max_rows = max_rows })

-- The values without blanks, trimmed, the first of each kept.
unfoldable pub distinct_ids : List String → List String → List String
distinct_ids seen [] = []
distinct_ids seen (v ∷ vs) =
    let id = trim_space v in
    let skipped = distinct_ids seen vs in
    let taken = id ∷ distinct_ids (id ∷ seen) vs in
    if id == "" || any_of (λ s. s == id) seen then skipped else taken

unfoldable pub unique_ids : List String → List String
unfolding distinct_ids sort_by
unique_ids values = sort_by str_lt (distinct_ids [] values)

-- strings.HasPrefix and strings.Contains.
unfoldable pub has_prefix : String → String → Bool
has_prefix s String.[] = true
has_prefix String.[] (String.◌∷◌ d t) = false
has_prefix (String.◌∷◌ c s) (String.◌∷◌ d t) = let rest = has_prefix s t in code c == code d && rest

unfoldable pub contains : String → String → Bool
unfolding has_prefix
contains String.[] t = has_prefix "" t
contains (String.◌∷◌ c s) t = let rest = contains s t in has_prefix (String.◌∷◌ c s) t || rest

-- The chunk that the identities complete, and the ones after it; `room` is what the chunk still holds.
unfoldable pub split_chunks : ℕ → ℕ → List String → List String × List (List String)
split_chunks size room [] = ([], [])
split_chunks size zero (id ∷ ids) =
    let (chunk, chunks) = split_chunks size (size - 1) ids in ([], (id ∷ chunk) ∷ chunks)
split_chunks size (suc room) (id ∷ ids) =
    let (chunk, chunks) = split_chunks size room ids in (id ∷ chunk, chunks)

unfoldable pub chunks_of : ℕ → List String → List (List String)
unfolding split_chunks
chunks_of size ids = (split_chunks size 0 ids).1

-- The observations and the rejections so far, in the order of the rows.
abbrev pub Collected : Type 0
Collected = List Observation × List RowRejection

module _ (conv : Conversions) (runner : Runner) (reader : Reader) where
  unfoldable pub missing_column : String → String → Bool
  unfolding contains
  missing_column message column =
      let text = runner.lower message in
      contains text "column"
      && contains text (runner.lower column)
      && (contains text "not found" || contains text "unknown" || contains text "does not exist")

  -- A malformed row is rejected; one without a WAL identity ends the read.
  abbrev pub collect_row :
      Telemetry → Result RowError Observation → Collected → Result ReadError Collected
  collect_row row (ok o) (all, rejected) = ok (o ∷ all, rejected)
  collect_row row (err RowError.wal_identity_unavailable) c = err ReadError.no_wal_identity
  collect_row row (err e) (all, rejected) = ok (
    all,
    record { frame_id = string_value (row "frame_id"); reason = runner.reason e } ∷ rejected,
  )

  unfoldable pub collect_rows : List Telemetry → Result ReadError Collected
  collect_rows [] = ok ([], [])
  collect_rows (row ∷ rows) =
      let rest = collect_rows rows in rest >>= collect_row row (decode_observation conv row)

  abbrev pub collect_chunk : Result String (List Telemetry) → Result ReadError Collected
  collect_chunk (err message) =
      if missing_column message "aircraft_id"
      then ok ([], [])
      else if missing_column message "wal_id"
      then err ReadError.no_wal_identity
      else err (ReadError.query_failed message)
  collect_chunk (ok rows) =
      if leb (pos_part reader.max_rows) (length rows)
      then err ReadError.saturated
      else collect_rows rows

  unfoldable pub collect_chunks : Time → Time → List (List String) → Result ReadError Collected
  unfolding missing_column collect_rows
  collect_chunks start end [] = ok ([], [])
  collect_chunks start end (ids ∷ chunks) =
      let rest = collect_chunks start end chunks in
      collect_chunk (runner.query ids start end) >>= λ first.
      rest >>= λ more. ok (first.0 ++ more.0, first.1 ++ more.1)

  -- Of the observations that agree in all that the order reads any may come first: here the first read.
  unfoldable pub read_positions : List String → Time → Time → Result ReadError ReadResult
  unfolding unique_ids chunks_of collect_chunks deduplicate
  read_positions aircraft_ids start end =
      let ids = unique_ids aircraft_ids in
      if is_empty ids
      then ok (record { observations = []; rejections = [] })
      else fail_if (is_zero start || not (after end start)) ReadError.invalid_window
        >> collect_chunks start end (chunks_of (pos_part reader.chunk_size) ids)
        >>= λ all.
            ok (record { observations = deduplicate [] (sort_stable all.0); rejections = all.1 })
