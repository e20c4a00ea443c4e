-- ===== src/Telemetry/Complete.antt =====
-- What a read of positions returns: `ReadPositions` of internal/telemetry/influx/reader.go.
use aero_arc_conformance.Prelude.{
  ◌≡◌, refl, ap, inl, inr, false, not, ◌||◌, ◌==◌, string_eq, leb, pos_part, List, [], ◌∷◌, String,
  is_empty, length, any_of, Result, ok, err, ◌>>◌, fail_if, All, All-append, Bool-cases, >>=-elim,
  ok_injective, err-not_ok,
}
use mathlib.Core.Path.{subst}
use aero_arc_conformance.Domain.Time.{Time, is_zero, after}
use aero_arc_conformance.Domain.Assignment.{Observation}
use aero_arc_conformance.Worker.Suffix.{insert, sort_stable}
use aero_arc_conformance.Evaluator.Batch.{observation_before}
use aero_arc_conformance.Worker.Split.{ReadResult, deduplicate}
use aero_arc_conformance.Telemetry.Decode.{Telemetry, Conversions, RowError, decode_observation}
use aero_arc_conformance.Telemetry.Reader.{
  Runner, Reader, ReadError, Collected, unique_ids, chunks_of, collect_row, collect_rows,
  collect_chunk, collect_chunks, missing_column, read_positions,
}
use aero_arc_conformance.Telemetry.Valid.{IsDecoded, decode_observation-IsDecoded}

module _ (P : Observation → Type 0) where
  insert-All : (o : Observation) (xs : List Observation) → P o → All P xs → All P (insert o xs)
  unfolding insert
  insert-All o [] h k = (h, tt)
  insert-All o (x ∷ xs) h k = elim (Bool-cases (observation_before x o)) [
    | inl less ↦ rw less (k.0, insert-All o xs h k.1)
    | inr not_less ↦ rw not_less (h, k)
  ]

  sort-All : (xs : List Observation) → All P xs → All P (sort_stable xs)
  unfolding sort_stable
  sort-All [] h = tt
  sort-All (x ∷ xs) h = insert-All x (sort_stable xs) h.0 (sort-All xs h.1)

  deduplicate-All :
      (seen : List String) (xs : List Observation) → All P xs → All P (deduplicate seen xs)
  unfolding deduplicate
  deduplicate-All seen [] h = tt
  deduplicate-All seen (x ∷ xs) h = elim (Bool-cases (any_of (λ f. f == x.frame_id) seen)) [
    | inl old ↦ rw old (deduplicate-All seen xs h.1)
    | inr new ↦ rw new (h.0, deduplicate-All (x.frame_id ∷ seen) xs h.1)
  ]

-- No frame is among those seen, and none comes twice.
abbrev pub FramesDiffer : List String → List Observation → Type 0
FramesDiffer seen [] = Unit
FramesDiffer seen (o ∷ os) =
    (any_of (λ f. f == o.frame_id) seen ≡ false) × FramesDiffer (o.frame_id ∷ seen) os

deduplicate-FramesDiffer :
    (seen : List String) (xs : List Observation) → FramesDiffer seen (deduplicate seen xs)
unfolding deduplicate
deduplicate-FramesDiffer seen [] = tt
deduplicate-FramesDiffer seen (x ∷ xs) = elim (Bool-cases (any_of (λ f. f == x.frame_id) seen)) [
  | inl old ↦ rw old (deduplicate-FramesDiffer seen xs)
  | inr new ↦ rw new (new, deduplicate-FramesDiffer (x.frame_id ∷ seen) xs)
]

module _ (conv : Conversions) (runner : Runner) (reader : Reader) where
  -- The rows of the chunk, if it was answered, are fewer than the limit of the query.
  abbrev pub Unsaturated : Time → Time → List String → Type 0
  Unsaturated start end ids =
      (rows : List Telemetry)
      → runner.query ids start end ≡ ok rows
      → leb (pos_part reader.max_rows) (length rows) ≡ false

  collect_row-All :
      (row : Telemetry) (d : Result RowError Observation) (c u : Collected)
      → decode_observation conv row ≡ d
      → collect_row conv runner reader row d c ≡ ok u
      → All IsDecoded c.0
      → All IsDecoded u.0
  collect_row-All row (ok o) (all, rejected) u d h k =
      subst (λ (x : Collected). All IsDecoded x.0) (ok_injective refl h)
        (decode_observation-IsDecoded conv row o d, k)
  collect_row-All row (err RowError.wal_identity_unavailable) c u d h k = absurd (err-not_ok _ u h)
  collect_row-All row (err _) (all, rejected) u d h k =
      subst (λ (x : Collected). All IsDecoded x.0) (ok_injective refl h) k

  collect_rows-All :
      (rows : List Telemetry) (u : Collected)
      → collect_rows conv runner reader rows ≡ ok u
      → All IsDecoded u.0
  unfolding collect_rows
  collect_rows-All [] u h = subst (λ (x : Collected). All IsDecoded x.0) (ok_injective refl h) tt
  collect_rows-All (row ∷ rows) u h =
      >>=-elim (collect_rows conv runner reader rows) _
        (λ c done last.
          collect_row-All row (decode_observation conv row) c u refl last
            (collect_rows-All rows c done))
        h

  collect_chunk-All :
      (answer : Result String (List Telemetry)) (u : Collected)
      → collect_chunk conv runner reader answer ≡ ok u
      → All IsDecoded u.0
        × ((rows : List Telemetry)
            → answer ≡ ok rows
            → leb (pos_part reader.max_rows) (length rows) ≡ false)
  collect_chunk-All (err message) u h =
      elim (Bool-cases (missing_column conv runner reader message "aircraft_id")) [
        | inl empty ↦ (
          subst (λ (x : Collected). All IsDecoded x.0) (ok_injective refl (rw empty at h)) tt,
          λ rows e. absurd (err-not_ok message rows e),
        )
        | inr other ↦ elim (Bool-cases (missing_column conv runner reader message "wal_id")) [
          | inl wal ↦ absurd (err-not_ok _ u (rw wal at (rw other at h)))
          | inr failed ↦ absurd (err-not_ok _ u (rw failed at (rw other at h)))
        ]
      ]
  collect_chunk-All (ok rows) u h =
      elim (Bool-cases (leb (pos_part reader.max_rows) (length rows))) [
        | inl full ↦ absurd (err-not_ok _ u (rw full at h))
        | inr fits ↦ (
          collect_rows-All rows u (rw fits at h),
          λ others e.
              subst (λ (rs : List Telemetry). leb (pos_part reader.max_rows) (length rs) ≡ false)
                (ok_injective refl e) fits,
        )
      ]

  collect_chunks-All :
      (start end : Time) (chunks : List (List String)) (u : Collected)
      → collect_chunks conv runner reader start end chunks ≡ ok u
      → All IsDecoded u.0 × All (Unsaturated start end) chunks
  unfolding collect_chunks
  collect_chunks-All start end [] u h =
      (subst (λ (x : Collected). All IsDecoded x.0) (ok_injective refl h) tt, tt)
  collect_chunks-All start end (ids ∷ chunks) u h =
      >>=-elim (collect_chunk conv runner reader (runner.query ids start end)) _
        (λ c first rest.
          >>=-elim (collect_chunks conv runner reader start end chunks) _
            (λ more done last.
              let (decoded, fits) = collect_chunk-All (runner.query ids start end) c first in
              let (others, fit) = collect_chunks-All start end chunks more done in
              (
                subst (λ (x : Collected). All IsDecoded x.0) (ok_injective refl last)
                    (All-append IsDecoded c.0 more.0 decoded others),
                (fits, fit),
              ))
            rest)
        h

-- A read that succeeds is not cut short: of every chunk of the aircraft's identities that the query
-- answered fewer rows came than its limit. The observations are decoded rows, no frame twice.
pub read_positions_lem :
    (conv : Conversions) (runner : Runner) (reader : Reader) (aircraft_ids : List String)
    (start end : Time) (r : ReadResult)
    → read_positions conv runner reader aircraft_ids start end ≡ ok r
    → is_empty (unique_ids aircraft_ids) ≡ false
    → All
        (Unsaturated conv runner reader start end)
        (chunks_of (pos_part reader.chunk_size) (unique_ids aircraft_ids))
      × All IsDecoded r.observations
      × FramesDiffer [] r.observations
unfolding read_positions
read_positions_lem conv runner reader aircraft_ids start end r h some_ids =
    >>=-elim
      (fail_if (is_zero start || not (after end start)) ReadError.invalid_window
        >> collect_chunks conv runner reader start end
            (chunks_of (pos_part reader.chunk_size) (unique_ids aircraft_ids)))
      (λ (all : Collected).
        ok (record { observations = deduplicate [] (sort_stable all.0); rejections = all.1 }))
      (λ all collected last.
        >>=-elim (fail_if (is_zero start || not (after end start)) ReadError.invalid_window) _
          (λ _ _ done.
            let (decoded, fit) =
              collect_chunks-All conv runner reader start end
                (chunks_of (pos_part reader.chunk_size) (unique_ids aircraft_ids)) all done in
            let same = ap (λ (x : ReadResult). x.observations) (ok_injective refl last) in
            (
              fit,
              subst (All IsDecoded) same (
                  deduplicate-All IsDecoded [] (sort_stable all.0)
                    (sort-All IsDecoded all.0 decoded)),
              subst (FramesDiffer []) same (deduplicate-FramesDiffer [] (sort_stable all.0)),
            ))
          collected)
      (rw some_ids at h)
