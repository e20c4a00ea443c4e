-- ===== src/Store/History.antt =====
-- Reads of the durable history: internal/store/postgres/history.go.
use Prim.Native.Char.{code}
use aero_arc_conformance.Prelude.{
  ℕ, ℤ, pos, suc, ◌+◌, Bool, true, false, not, ◌&&◌, ◌||◌, ◌==◌, ◌!=◌, nat_eq, string_eq, str_lt,
  ltb, leb, ltb_ℤ, pos_part, if◌then◌else◌, Option, none, some, List, [], ◌∷◌, ◌++◌, String,
  is_blank, length, Result, ok, err, ◌>>=◌, ◌>>◌, fail_if, keep_if, any_of,
}
use aero_arc_conformance.Domain.Float.{Float64}
use aero_arc_conformance.Domain.Time.{Time, is_zero, before, after}
use aero_arc_conformance.Domain.Types.{ViolationType, Transition}
use aero_arc_conformance.Domain.Assignment.{Volume}
use aero_arc_conformance.Store.Rows.{EventRow}
use aero_arc_conformance.Store.Tables.{Row, Tables, Codec, has_key, first, max_int64}
use aero_arc_conformance.Store.Leases.{limited}
use aero_arc_conformance.Store.Outbox.{sort_by}

pub data HistoryError : Type 0 where
  invalid_history_query encode_cursor_failed : HistoryError

pub record HistoryQuery : Type 0 where
  pub assignment_id : String
  pub generation : ℕ  -- uint64
  pub from : Option Time
  pub until : Option Time
  pub page_size : ℤ  -- int
  pub page_token : String

pub record HistoryEvent : Type 0 where
  pub id : String
  pub assignment_id : String
  pub generation : ℕ  -- uint64
  pub intent_id : String
  pub intent_version : ℕ  -- uint32
  pub aircraft_id : String
  pub flight_id : String
  pub incident_id : String
  pub transition : Transition
  pub violation : ViolationType
  pub frame_id : String
  pub observed_at : Time
  pub deviation_m : Option Float64
  pub evaluation_revision : ℕ  -- uint64
  pub planned_start_at : Option Time
  pub planned_end_at : Option Time

pub record HistoryPage : Type 0 where
  pub events : List HistoryEvent
  pub next_page_token : String

pub record HistoryCursor : Type 0 where
  pub version : ℕ  -- int
  pub assignment_id : String
  pub generation : ℕ  -- uint64
  pub from : Option Time
  pub until : Option Time
  pub at : Time
  pub id : String

-- A cursor as JSON in base64, and back: an error is none.
pub record Tokens : Type 0 where
  pub encode : HistoryCursor → Option String
  pub decode : String → Option HistoryCursor

-- len of a string: the bytes of its UTF-8 form.
unfoldable pub byte_length : String → ℕ
byte_length String.[] = 0
byte_length (String.◌∷◌ c s) =
    let n = code c in
    (if ltb n 0x80 then 1 else if ltb n 0x800 then 2 else if ltb n 0x10000 then 3 else 4)
    + byte_length s

-- a.Equal(*b), or both nil.
abbrev pub same_history_time : Option Time → Option Time → Bool
same_history_time none none = true
same_history_time (some a) (some b) = a == b
same_history_time _ _ = false

abbrev is_inverted : Option Time → Option Time → Bool
is_inverted (some from) (some until) = not (before from until)
is_inverted _ _ = false

unfoldable pub is_invalid_query : HistoryQuery → Bool
unfolding byte_length
is_invalid_query q =
    is_blank q.assignment_id
    || ltb 512 (byte_length q.assignment_id)
    || ltb max_int64 q.generation
    || ltb_ℤ q.page_size (pos 0)
    || ltb_ℤ (pos 200) q.page_size
    || ltb 4096 (byte_length q.page_token)
    || is_inverted q.from q.until

abbrev pub page_limit : ℤ → ℕ
page_limit size = if pos_part size == 0 then 50 else pos_part size

unfoldable pub is_foreign_cursor : HistoryQuery → HistoryCursor → Bool
unfolding byte_length
is_foreign_cursor q c =
    c.version != 1
    || c.assignment_id != q.assignment_id
    || c.generation != q.generation
    || not (same_history_time c.from q.from)
    || not (same_history_time c.until q.until)
    || is_zero c.at
    || c.id == ""
    || ltb 1024 (byte_length c.id)

abbrev pub checked_cursor :
    HistoryQuery → Option HistoryCursor → Result HistoryError (Option HistoryCursor)
checked_cursor q none = err HistoryError.invalid_history_query
checked_cursor q (some c) =
    if is_foreign_cursor q c then err HistoryError.invalid_history_query else ok (some c)

-- The page size and the cursor of the token, if there is one.
unfoldable pub history_bounds :
    Tokens → HistoryQuery → Result HistoryError (ℕ × Option HistoryCursor)
unfolding is_invalid_query is_foreign_cursor
history_bounds tokens q =
    fail_if (is_invalid_query q) HistoryError.invalid_history_query
    >> (if q.page_token == "" then ok none else checked_cursor q (tokens.decode q.page_token))
    >>= λ cursor. ok (page_limit q.page_size, cursor)

-- The planned interval of the volumes, where all of them have one.
unfoldable pub widen : List Volume → Time → Time → Option Time × Option Time
widen [] start end = (some start, some end)
widen (v ∷ vs) start end =
    let rest =
      widen vs (if before v.starts_at start then v.starts_at else start)
        (if after v.ends_at end then v.ends_at else end) in
    if is_zero v.starts_at || is_zero v.ends_at || not (before v.starts_at v.ends_at)
    then (none, none)
    else rest

unfoldable pub history_plan_bounds : List Volume → Option Time × Option Time
unfolding widen
history_plan_bounds [] = (none, none)
history_plan_bounds (v ∷ vs) = widen (v ∷ vs) v.starts_at v.ends_at

-- Only the spatial violations have a deviation.
abbrev deviation_of : ViolationType → Float64 → Option Float64
deviation_of ViolationType.lateral d = some d
deviation_of ViolationType.vertical d = some d
deviation_of _ d = none

unfoldable pub history_event : EventRow → Row → HistoryEvent
unfolding history_plan_bounds
history_event e r =
    let a = r.assignment in
    let (start, end) = history_plan_bounds a.volumes in
    record {
      id = e.event_id;
      assignment_id = e.assignment_id;
      generation = e.generation;
      intent_id = a.intent_id;
      intent_version = a.intent_version;
      aircraft_id = a.aircraft_id;
      flight_id = a.flight_id;
      incident_id = e.incident_id;
      transition = e.transition;
      violation = e.violation;
      frame_id = e.frame_id;
      observed_at = e.observed_at;
      deviation_m = deviation_of e.violation e.deviation_m;
      evaluation_revision = e.evaluation_revision;
      planned_start_at = start;
      planned_end_at = end;
    }

-- (e.observed_at, e.event_id) < (at, id). The identities are hexadecimal, so that the collation orders
-- them by their bytes.
abbrev pub key_lt : Time → String → Time → String → Bool
key_lt at id at' id' = ltb at at' || (at == at' && str_lt id id')

abbrev pub is_older : EventRow → EventRow → Bool
is_older e f = key_lt e.observed_at e.event_id f.observed_at f.event_id

-- ORDER BY observed_at DESC, event_id DESC.
abbrev pub newer_first : EventRow → EventRow → Bool
newer_first e f = is_older f e

module _ (codec : Codec) (s : Tables) (q : HistoryQuery) where
  abbrev at_least : Option Time → Time → Bool
  at_least none t = true
  at_least (some from) t = leb (codec.timestamptz from) t

  abbrev less_than : Option Time → Time → Bool
  less_than none t = true
  less_than (some until) t = ltb t (codec.timestamptz until)

  -- The filters of the query, but for the cursor.
  unfoldable pub is_selected : EventRow → Bool
  is_selected e =
      e.assignment_id == q.assignment_id
      && (q.generation == 0 || e.generation == q.generation)
      && at_least q.from e.observed_at
      && less_than q.until e.observed_at
      && any_of (has_key e.assignment_id e.generation) s.assignments

  abbrev pub is_after_cursor : Option HistoryCursor → EventRow → Bool
  is_after_cursor none e = true
  is_after_cursor (some c) e = key_lt e.observed_at e.event_id (codec.timestamptz c.at) c.id

  -- The rows of the query, without its limit.
  unfoldable pub history_rows : Option HistoryCursor → List EventRow
  unfolding is_selected sort_by
  history_rows cursor =
      sort_by newer_first (keep_if (λ e. is_selected e && is_after_cursor cursor e) s.events)

  -- The row with the assignment that it is joined with.
  abbrev joined_event : EventRow → Option Row → List HistoryEvent
  joined_event e none = []
  joined_event e (some r) = history_event e r ∷ []

  unfoldable pub scan_events : List EventRow → List HistoryEvent
  unfolding history_event
  scan_events [] = []
  scan_events (e ∷ es) =
      joined_event e (first (has_key e.assignment_id e.generation) s.assignments) ++ scan_events es

  abbrev pub cursor_of : EventRow → HistoryCursor
  cursor_of e = record {
    version = 1;
    assignment_id = q.assignment_id;
    generation = q.generation;
    from = q.from;
    until = q.until;
    at = e.observed_at;
    id = e.event_id;
  }

  abbrev pub token_or_error : Option String → Result HistoryError String
  token_or_error none = err HistoryError.encode_cursor_failed
  token_or_error (some text) = ok text

  -- The last entry of the first `size` ones.
  abbrev pub last_of_page : EventRow → ℕ → List EventRow → EventRow
  last_of_page e size [] = e
  last_of_page e ℕ.zero (x ∷ xs) = e
  last_of_page e (suc size) (x ∷ xs) = last_of_page x size xs

  -- The token of a page that does not hold all the rows.
  unfoldable pub next_token : Tokens → ℕ → List EventRow → Result HistoryError String
  next_token tokens size [] = ok ""
  next_token tokens size (e ∷ es) =
      if ltb size (length (e ∷ es))
      then token_or_error (tokens.encode (cursor_of (last_of_page e size (e ∷ es))))
      else ok ""

  unfoldable pub page_of : Tokens → ℕ → List EventRow → Result HistoryError HistoryPage
  unfolding scan_events next_token
  page_of tokens size rows = next_token tokens size rows >>= λ token.
      ok (record { events = scan_events (limited size rows); next_page_token = token })

-- The query is limited to one row more than the page holds.
unfoldable pub list_conformance_events :
    Codec → Tokens → Tables → HistoryQuery → Result HistoryError HistoryPage
unfolding history_bounds history_rows page_of
list_conformance_events codec tokens s q = history_bounds tokens q >>= λ bounds.
    page_of codec s q tokens bounds.0 (limited (suc bounds.0) (history_rows codec s q bounds.1))
