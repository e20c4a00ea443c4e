-- ===== src/Store/Pages.antt =====
-- Reading the history page by page: `ListConformanceEvents` of internal/store/postgres/history.go.
use aero_arc_conformance.Prelude.{
  ℕ, suc, ◌≡◌, refl, ap, ◌∙◌, inl, inr, Bool, true, false, ◌&&◌, ◌==◌, nat_eq, string_eq, ltb,
  Option, none, some, List, [], ◌∷◌, ◌++◌, String, length, keep_if, arith, Option-cases,
  str_lt_trans,
}
use aero_arc_conformance.Domain.Time.{is_zero}
use aero_arc_conformance.Store.Rows.{EventRow}
use aero_arc_conformance.Store.Tables.{Tables, Codec, has_key, first}
use aero_arc_conformance.Store.Leases.{limited}
use aero_arc_conformance.Store.Outbox.{sort_by}
use aero_arc_conformance.Store.History.{
  HistoryQuery, HistoryEvent, HistoryCursor, Tokens, byte_length, is_older, newer_first,
  is_selected, is_after_cursor, history_rows, scan_events, history_event, cursor_of, last_of_page,
}
use aero_arc_conformance.Store.Keyset.{kept-sort, remainder}

-- A token that is written is read as the cursor that it was written from, is not empty.
pub record KeepsCursors (tokens : Tokens) : Type 0 where
  pub decoded :
      (c : HistoryCursor) (t : String) → tokens.encode c ≡ some t → tokens.decode t ≡ some c
  pub given : (c : HistoryCursor) (t : String) → tokens.encode c ≡ some t → (t == "") ≡ false

-- What the table of events ensures of each row: it has a time, which timestamptz keeps, and an
-- identity that a cursor may have.
pub record IsStored (codec : Codec) (e : EventRow) : Type 0 where
  pub timed : is_zero e.observed_at ≡ false
  pub kept_time : codec.timestamptz e.observed_at ≡ e.observed_at
  pub named : (e.event_id == "") ≡ false
  pub bounded : ltb 1024 (byte_length e.event_id) ≡ false

module _ (codec : Codec) (s : Tables) (q : HistoryQuery) where
  -- All the events of the query behind a cursor.
  abbrev pub remaining : Option HistoryCursor → List HistoryEvent
  remaining cursor = scan_events codec s q (history_rows codec s q cursor)

  pub limited-remainder :
      (size : ℕ) (rows : List EventRow) → limited size rows ++ remainder size rows ≡ rows
  limited-remainder size [] = refl
  limited-remainder ℕ.zero (x ∷ xs) = refl
  limited-remainder (suc size) (x ∷ xs) = ap (λ ys. x ∷ ys) (limited-remainder size xs)

  pub scan-append :
      (xs ys : List EventRow)
      → scan_events codec s q (xs ++ ys) ≡ scan_events codec s q xs ++ scan_events codec s q ys
  unfolding scan_events
  scan-append [] ys = refl
  scan-append (x ∷ xs) ys =
      elim (Option-cases (first (has_key x.assignment_id x.generation) s.assignments)) [
        | inl missing ↦ rw missing (scan-append xs ys)
        | inr (r, found) ↦ rw found (ap (λ es. history_event x r ∷ es) (scan-append xs ys))
      ]

  pub limited-limited :
      (size : ℕ) (rows : List EventRow) → limited size (limited (suc size) rows) ≡ limited size rows
  limited-limited size [] = refl
  limited-limited ℕ.zero (x ∷ xs) = refl
  limited-limited (suc size) (x ∷ xs) = ap (λ ys. x ∷ ys) (limited-limited size xs)

  pub last-limited :
      (e : EventRow) (size : ℕ) (rows : List EventRow)
      → last_of_page codec s q e size (limited (suc size) rows) ≡ last_of_page codec s q e size rows
  last-limited e size [] = refl
  last-limited e ℕ.zero (x ∷ xs) = refl
  last-limited e (suc size) (x ∷ xs) = last-limited x size xs

  pub longer-limited :
      (size : ℕ) (rows : List EventRow)
      → ltb size (length (limited (suc size) rows)) ≡ ltb size (length rows)
  longer-limited size [] = refl
  longer-limited ℕ.zero (x ∷ xs) = ground arith
  longer-limited (suc size) (x ∷ xs) = ground (arith, longer-limited size xs)

  -- A page that holds all the rows.
  pub limited_all :
      (size : ℕ) (rows : List EventRow) → ltb size (length rows) ≡ false → limited size rows ≡ rows
  limited_all size [] h = refl
  limited_all ℕ.zero (x ∷ xs) h = ground arith
  limited_all (suc size) (x ∷ xs) h = ap (λ ys. x ∷ ys) (limited_all size xs (ground (arith, h)))

  keep_twice :
      (l : EventRow) (p r : EventRow → Bool)
      → ((e : EventRow) → (p e && is_older e l) ≡ r e)
      → (es : List EventRow) → keep_if (λ e. is_older e l) (keep_if p es) ≡ keep_if r es
  keep_twice l p r k [] = refl
  keep_twice l p r k (e ∷ es) = ground (arith, k e, keep_twice l p r k es)

  behind_both :
      (cursor : Option HistoryCursor) (l e : EventRow)
      → IsStored codec l
      → is_after_cursor codec s q cursor l ≡ true
      → ((is_selected codec s q e && is_after_cursor codec s q cursor e) && is_older e l)
        ≡ (is_selected codec s q e && is_after_cursor codec s q (some (cursor_of codec s q l)) e)
  behind_both none l e stored h = rw (stored.kept_time) (ground arith)
  behind_both (some c) l e stored h =
      rw (stored.kept_time) (ground (arith, str_lt_trans e.event_id l.event_id c.id))

  -- The rows behind a cursor that is older than another one.
  pub rows-behind :
      (cursor : Option HistoryCursor) (l : EventRow)
      → IsStored codec l
      → is_after_cursor codec s q cursor l ≡ true
      → keep_if (λ e. is_older e l) (history_rows codec s q cursor)
        ≡ history_rows codec s q (some (cursor_of codec s q l))
  unfolding history_rows
  rows-behind cursor l stored h =
      kept-sort l
        (keep_if (λ e. is_selected codec s q e && is_after_cursor codec s q cursor e) s.events)
      ∙ ap (sort_by newer_first) (
          keep_twice l (λ e. is_selected codec s q e && is_after_cursor codec s q cursor e)
            (λ e.
              is_selected codec s q e && is_after_cursor codec s q (some (cursor_of codec s q l)) e)
            (λ e. behind_both cursor l e stored h) s.events)
