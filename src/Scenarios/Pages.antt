-- ===== src/Scenarios/Pages.antt =====
-- A history of two events, read one at a time.
use mathlib.Core.Bool.{false≢true}
use aero_arc_conformance.Prelude.{
  ℕ, ◌≡◌, refl, sym, ap, ◌⊎◌, inl, inr, Bool, true, ◌&&◌, ◌==◌, nat_eq, string_eq, pos, ◌+◌, Option,
  none, some, [], ◌∷◌, String, Result, ok, err, is_blank, if◌then◌else◌, Bool-cases, and_split,
  ==→eq, All,
}
use aero_arc_conformance.Domain.Float.{zero_float}
use aero_arc_conformance.Domain.Time.{Time}
use aero_arc_conformance.Domain.Types.{ViolationType, Transition}
use aero_arc_conformance.Store.Rows.{EventRow}
use aero_arc_conformance.Store.Tables.{Tables}
use aero_arc_conformance.Store.History.{
  HistoryQuery, HistoryPage, HistoryCursor, Tokens, byte_length, same_history_time, history_bounds,
  list_conformance_events,
}
use aero_arc_conformance.Store.Pages.{KeepsCursors, IsStored}
use aero_arc_conformance.Store.Continues.{
  IsTooLong, LastPage, PageBefore, list_conformance_events_pages,
}
use aero_arc_conformance.Scenarios.Commands.{plain_codec}
use aero_arc_conformance.Scenarios.Flight.{takeoff}
use aero_arc_conformance.Scenarios.Leases.{before_claims}

abbrev event : String → ℕ → EventRow
event id offset = record {
  event_id = id;
  assignment_id = "assignment";
  generation = 1;
  incident_id = "incident";
  transition = Transition.opened;
  violation = ViolationType.lateral;
  observed_at = takeoff + offset;
  frame_id = "f1";
  wal_id = "wal";
  wal_sequence = 1;
  evaluation_revision = 1;
  payload_sha256 = "hash";
  deviation_m = zero_float;
}

abbrev recorded : Tables
recorded = record before_claims { events = event "e1" 10 ∷ event "e2" 20 ∷ [] }

abbrev one_at_a_time : HistoryQuery
one_at_a_time = record {
  assignment_id = "assignment";
  generation = 0;
  from = none;
  until = none;
  page_size = pos 1;
  page_token = "";
}

abbrev newest : HistoryCursor
newest = record {
  version = 1;
  assignment_id = "assignment";
  generation = 0;
  from = none;
  until = none;
  at = takeoff + 20;
  id = "e2";
}

abbrev is_newest : HistoryCursor → Bool
is_newest c =
    c.version == 1
    && c.assignment_id == "assignment"
    && c.generation == 0
    && same_history_time c.from none
    && same_history_time c.until none
    && c.at == takeoff + 20
    && c.id == "e2"

no_time : (t : Option Time) → same_history_time t none ≡ true → t ≡ none
no_time none h = refl
no_time (some t) h = cc

is_newest-eq : (c : HistoryCursor) → is_newest c ≡ true → c ≡ newest
is_newest-eq c h =
    let (h6, id) = and_split _ _ h in
    let (h5, at) = and_split _ _ h6 in
    let (h4, until) = and_split _ _ h5 in
    let (h3, from) = and_split _ _ h4 in
    let (h2, generation) = and_split _ _ h3 in
    let (version, assignment_id) = and_split _ _ h2 in
    λ i. record {
      version = ==→eq c.version 1 version i;
      assignment_id = ==→eq c.assignment_id "assignment" assignment_id i;
      generation = ==→eq c.generation 0 generation i;
      from = no_time c.from from i;
      until = no_time c.until until i;
      at = ==→eq c.at (takeoff + 20) at i;
      id = ==→eq c.id "e2" id i;
    }

-- A codec that knows one cursor.
abbrev one_token : Tokens
one_token = record {
  encode = λ c. if is_newest c then some "token" else none;
  decode = λ t. if t == "token" then some newest else none;
}

encoded-newest :
    (c : HistoryCursor) (t : String) → one_token.encode c ≡ some t → (c ≡ newest) × (t ≡ "token")
encoded-newest c t h = elim (Bool-cases (is_newest c)) [
  | inl is ↦ (is_newest-eq c is, cc (rw is at h))
  | inr other ↦ cc (rw other at h)
]

one_token-KeepsCursors : KeepsCursors one_token
unfolding byte_length
one_token-KeepsCursors = record {
  decoded = λ c t h. let (same, token) = encoded-newest c t h in rw token (ap some (sym same));
  given = λ c t h. rw ((encoded-newest c t h).1) refl;
}

recorded-IsStored : All (IsStored plain_codec) recorded.events
unfolding byte_length
recorded-IsStored = (
  record { timed = refl; kept_time = refl; named = refl; bounded = refl },
  (record { timed = refl; kept_time = refl; named = refl; bounded = refl }, tt),
)

abbrev first_page : HistoryPage
first_page = page_or (list_conformance_events plain_codec one_token recorded one_at_a_time)
  where
    page_or : {E : Type 0} → Result E HistoryPage → HistoryPage
    page_or (ok p) = p
    page_or (err e) = record { events = []; next_page_token = "" }

first_page-ok : list_conformance_events plain_codec one_token recorded one_at_a_time ≡ ok first_page
unfolding list_conformance_events is_blank
first_page-ok = refl

one_at_a_time-ok : history_bounds one_token one_at_a_time ≡ ok (1, none)
unfolding history_bounds is_blank
one_at_a_time-ok = refl

list_conformance_events_pages_example :
    LastPage plain_codec one_token recorded one_at_a_time none first_page
    ⊎ (PageBefore plain_codec one_token recorded one_at_a_time 1 none first_page
        ⊎ IsTooLong plain_codec one_token recorded one_at_a_time first_page)
list_conformance_events_pages_example =
    list_conformance_events_pages plain_codec one_token recorded one_at_a_time first_page 1 none
      one_token-KeepsCursors recorded-IsStored
      (((λ same. false≢true ((string_eq.same_iff "e1" "e2").1 same)), tt), (tt, tt))
      one_at_a_time-ok first_page-ok
