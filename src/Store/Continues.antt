-- ===== src/Store/Continues.antt =====
-- No event is lost or repeated from page to page: `ListConformanceEvents` and `historyBounds` of
-- internal/store/postgres/history.go.
use mathlib.Core.Path.{subst}
use aero_arc_conformance.Prelude.{
  ℕ, ℤ, suc, ◌<◌, ◌≡◌, refl, sym, ap, ◌∙◌, inl, inr, ◌⊎◌, Bool, true, false, ◌&&◌, ◌==◌, nat_eq,
  string_eq, ltb, if◌then◌else◌, Option, none, some, List, [], ◌∷◌, ◌++◌, String, length, ok, err,
  ◌>>◌, fail_if, keep_if, All, arith, Bool-cases, and_split, >>=-eq-ok, ok_injective, err-not_ok,
  fail_if-ok, eq_self,
}
use aero_arc_conformance.Domain.Time.{Time}
use aero_arc_conformance.Store.Rows.{EventRow}
use aero_arc_conformance.Store.Tables.{Tables, Codec}
use aero_arc_conformance.Store.Leases.{limited}
use aero_arc_conformance.Store.History.{
  HistoryError, HistoryQuery, HistoryPage, HistoryCursor, Tokens, byte_length, same_history_time,
  is_invalid_query, page_limit, is_foreign_cursor, history_bounds, is_older, is_selected,
  is_after_cursor, history_rows, scan_events, cursor_of, last_of_page, next_token, page_of,
  list_conformance_events, checked_cursor, token_or_error,
}
use aero_arc_conformance.Store.Keyset.{
  AllDiffer, Descends, sort-Descends, keep_if-All, keep_if-AllDiffer, older-remainder, remainder,
  sort-All, last_of_page-All,
}
use aero_arc_conformance.Store.Pages.{
  KeepsCursors, IsStored, remaining, limited-remainder, scan-append, limited-limited, last-limited,
  longer-limited, limited_all, rows-behind,
}

-- The query for the page after.
abbrev pub next_query : HistoryQuery → HistoryPage → HistoryQuery
next_query q page = record q { page_token = page.next_page_token }

keep_if-holds : (p : EventRow → Bool) (es : List EventRow) → All (λ e. p e ≡ true) (keep_if p es)
keep_if-holds p [] = tt
keep_if-holds p (e ∷ es) = elim (Bool-cases (p e)) [
  | inl keeps ↦ rw keeps (keeps, keep_if-holds p es)
  | inr drops ↦ rw drops (keep_if-holds p es)
]

page_limit-suc : (size : ℤ) → (m : ℕ) × (page_limit size ≡ suc m)
page_limit-suc size = positive (page_limit size) (ground arith)
  where
    positive : (n : ℕ) → 0 < n → (m : ℕ) × (n ≡ suc m)
    positive (suc m) h = (m, refl)
    positive ℕ.zero h = absurd (omega (arith, h))

same_time_self : (t : Option Time) → same_history_time t t ≡ true
same_time_self none = refl
same_time_self (some t) = eq_self t

module _ (codec : Codec) (tokens : Tokens) (s : Tables) (q : HistoryQuery) where
  bounds-valid :
      (n : ℕ) (cursor : Option HistoryCursor)
      → history_bounds tokens q ≡ ok (n, cursor)
      → (is_invalid_query q ≡ false) × (page_limit q.page_size ≡ n)
  unfolding history_bounds
  bounds-valid n cursor h =
      let (middle, first_ok, last) =
        >>=-eq-ok
          (fail_if (is_invalid_query q) HistoryError.invalid_history_query
            >> (if q.page_token == ""
                then ok none
                else checked_cursor q (tokens.decode q.page_token)))
          (λ cursor. ok (page_limit q.page_size, cursor)) h in
      let (u, valid, _) =
        >>=-eq-ok (fail_if (is_invalid_query q) HistoryError.invalid_history_query)
          (λ _.
            if q.page_token == "" then ok none else checked_cursor q (tokens.decode q.page_token))
          first_ok in
      (fail_if-ok _ _ u valid, ap (λ x. x.0) (ok_injective refl last))

  -- The token of a page is accepted with the same query, and is its cursor.
  token-accepted :
      (n : ℕ) (t : String) (l : EventRow)
      → KeepsCursors tokens
      → IsStored codec l
      → ltb 4096 (byte_length t) ≡ false
      → is_invalid_query q ≡ false
      → page_limit q.page_size ≡ n
      → tokens.encode (cursor_of codec s q l) ≡ some t
      → history_bounds tokens (record q { page_token = t }) ≡ ok (n, some (cursor_of codec s q l))
  unfolding history_bounds is_invalid_query is_foreign_cursor
  token-accepted n t l keeps stored bounded valid size encoded =
      let given = keeps.given (cursor_of codec s q l) t encoded in
      let valid' : is_invalid_query (record q { page_token = t }) ≡ false =
        ground (arith, valid, bounded) in
      let own : is_foreign_cursor (record q { page_token = t }) (cursor_of codec s q l) ≡ false =
        ground (
          arith,
          eq_self q.assignment_id,
          eq_self q.generation,
          same_time_self q.from,
          same_time_self q.until,
          stored.timed,
          stored.named,
          stored.bounded,
        ) in
      rw valid'
        (rw given (rw (keeps.decoded (cursor_of codec s q l) t encoded) (rw own (rw size refl))))

  written-encode :
      (o : Option String) (token : String) → token_or_error codec s q o ≡ ok token → o ≡ some token
  written-encode none token h = absurd (err-not_ok _ token h)
  written-encode (some text) token h = ap some (ok_injective refl h)

  next_token-longer :
      (n : ℕ) (e : EventRow) (es : List EventRow) (token : String)
      → ltb n (length (e ∷ es)) ≡ true
      → next_token codec s q tokens n (e ∷ es) ≡ ok token
      → tokens.encode (cursor_of codec s q (last_of_page codec s q e n (e ∷ es))) ≡ some token
  unfolding next_token
  next_token-longer n e es token longer h =
      written-encode (tokens.encode (cursor_of codec s q (last_of_page codec s q e n (e ∷ es))))
        token (rw longer at h)

  next_token-whole :
      (n : ℕ) (e : EventRow) (es : List EventRow) (token : String)
      → ltb n (length (e ∷ es)) ≡ false
      → next_token codec s q tokens n (e ∷ es) ≡ ok token
      → token ≡ ""
  unfolding next_token
  next_token-whole n e es token whole h = sym (ok_injective refl (rw whole at h))

  abbrev pub LastPage : Option HistoryCursor → HistoryPage → Type 0
  LastPage cursor page = (page.next_page_token ≡ "") × (page.events ≡ remaining codec s q cursor)

  abbrev pub PageBefore : ℕ → Option HistoryCursor → HistoryPage → Type 0
  PageBefore n cursor page =
      (next : HistoryCursor) × (history_bounds tokens (next_query q page) ≡ ok (n, some next))
      × (remaining codec s q cursor
          ≡ page.events ++ remaining codec s (next_query q page) (some next))

  -- The token is too long to be accepted again.
  abbrev pub IsTooLong : HistoryPage → Type 0
  IsTooLong page =
      (4096 < byte_length page.next_page_token)
      × (history_bounds tokens (next_query q page) ≡ err HistoryError.invalid_history_query)

  too_long :
      (page : HistoryPage) → ltb 4096 (byte_length page.next_page_token) ≡ true → IsTooLong page
  unfolding history_bounds is_invalid_query
  too_long page h =
      let invalid : is_invalid_query (next_query q page) ≡ true = ground (arith, h) in
      (ground (arith, h), rw invalid refl)

  module _ (cursor : Option HistoryCursor) (m : ℕ) (keeps : KeepsCursors tokens)
      (stored : All (IsStored codec) s.events) (unique : AllDiffer s.events)
      (valid : is_invalid_query q ≡ false) (size : page_limit q.page_size ≡ suc m) where
    abbrev selected : EventRow → Bool
    selected e = is_selected codec s q e && is_after_cursor codec s q cursor e

    rows-IsStored : All (IsStored codec) (history_rows codec s q cursor)
    unfolding history_rows
    rows-IsStored =
        sort-All (IsStored codec) (keep_if selected s.events)
          (keep_if-All (IsStored codec) selected s.events stored)

    rows-after : All (λ e. selected e ≡ true) (history_rows codec s q cursor)
    unfolding history_rows
    rows-after =
        sort-All (λ e. selected e ≡ true) (keep_if selected s.events)
          (keep_if-holds selected s.events)

    rows-Descends : Descends (history_rows codec s q cursor)
    unfolding history_rows
    rows-Descends =
        sort-Descends (keep_if selected s.events) (keep_if-AllDiffer selected s.events unique)

    page-PageBefore :
        (e : EventRow) (es : List EventRow) (page : HistoryPage)
        → e ∷ es ≡ history_rows codec s q cursor
        → tokens.encode (cursor_of codec s q (last_of_page codec s q e (suc m) (e ∷ es)))
          ≡ some page.next_page_token
        → page.events ≡ scan_events codec s q (limited (suc m) (e ∷ es))
        → ltb 4096 (byte_length page.next_page_token) ≡ false
        → PageBefore (suc m) cursor page
    unfolding history_rows is_selected scan_events
    page-PageBefore e es page rows encoded events short =
        let l : EventRow = last_of_page codec s q e (suc m) (e ∷ es) in
        let all_stored = subst (All (IsStored codec)) (sym rows) rows-IsStored in
        let all_after = subst (All (λ e. selected e ≡ true)) (sym rows) rows-after in
        let l_stored =
          last_of_page-All codec s q (IsStored codec) e m es all_stored.0 all_stored.1 in
        let l_after =
          last_of_page-All codec s q (λ e. selected e ≡ true) e m es all_after.0 all_after.1 in
        let behind = rows-behind codec s q cursor l l_stored (and_split _ _ l_after).1 in
        let older = older-remainder codec s q e m es (subst Descends (sym rows) rows-Descends) in
        let following : remainder (suc m) (e ∷ es)
            ≡ history_rows codec s q (some (cursor_of codec s q l)) =
          sym older ∙ ap (keep_if (λ y. is_older y l)) rows ∙ behind in
        (
          cursor_of codec s q l,
          token-accepted (suc m) page.next_page_token l keeps l_stored short valid size encoded,
          ap (scan_events codec s q) (sym rows ∙ sym (limited-remainder codec s q (suc m) (e ∷ es)))
              ∙ scan-append codec s q (limited (suc m) (e ∷ es)) (remainder (suc m) (e ∷ es))
              ∙ (λ i. sym events i ++ scan_events codec s q (following i)),
        )

    page_of-pages :
        (rows : List EventRow) (page : HistoryPage)
        → rows ≡ history_rows codec s q cursor
        → page_of codec s q tokens (suc m) (limited (suc (suc m)) rows) ≡ ok page
        → LastPage cursor page ⊎ (PageBefore (suc m) cursor page ⊎ IsTooLong page)
    unfolding page_of next_token
    page_of-pages [] page rows h =
        let built = ok_injective refl h in
        inl (
          ap (λ x. x.next_page_token) (sym built),
          ap (λ x. x.events) (sym built) ∙ ap (scan_events codec s q) rows,
        )
    page_of-pages (e ∷ es) page rows h =
        let limited_rows = limited (suc (suc m)) (e ∷ es) in
        let (token, made, last) =
          >>=-eq-ok (next_token codec s q tokens (suc m) limited_rows)
            (λ token. ok (record {
              events = scan_events codec s q (limited (suc m) limited_rows);
              next_page_token = token;
            }))
            h in
        let built = ok_injective refl last in
        let events : page.events ≡ scan_events codec s q (limited (suc m) (e ∷ es)) =
          ap (λ x. x.events) (sym built)
          ∙ ap (scan_events codec s q) (limited-limited codec s q (suc m) (e ∷ es)) in
        elim (Bool-cases (ltb (suc m) (length (e ∷ es)))) [
          | inl longer ↦
              let encoded =
                next_token-longer (suc m) e (limited (suc m) es) token
                  (longer-limited codec s q (suc m) (e ∷ es) ∙ longer) made in
              let same_token : token ≡ page.next_page_token = ap (λ x. x.next_page_token) built in
              inr (elim (Bool-cases (ltb 4096 (byte_length page.next_page_token))) [
                | inl long ↦ inr (too_long page long)
                | inr short ↦ inl (
                    page-PageBefore e es page rows
                      (ap (λ l. tokens.encode (cursor_of codec s q l))
                          (sym (last-limited codec s q e (suc m) (e ∷ es)))
                        ∙ encoded
                        ∙ ap some same_token)
                      events short)
              ])
          | inr whole ↦
              let none_left =
                next_token-whole (suc m) e (limited (suc m) es) token
                  (longer-limited codec s q (suc m) (e ∷ es) ∙ whole) made in
              inl (
                ap (λ x. x.next_page_token) (sym built) ∙ none_left,
                events
                    ∙ ap (scan_events codec s q)
                        (limited_all codec s q (suc m) (e ∷ es) whole ∙ rows),
              )
        ]

-- Reading the history page by page neither loses nor repeats an event. A page that is returned for a
-- query with a valid token or none has no token and is all that remains behind the query's cursor, or
-- its token is accepted with the same query, and what remains behind the query's cursor is the page
-- followed by what remains behind the token's, or its token is longer than 4096 bytes and refused.
-- Tokens decode to the cursor that they encode and are not empty, and events have times that
-- timestamptz keeps and distinct identities that a cursor may have.
pub list_conformance_events_pages :
    (codec : Codec) (tokens : Tokens) (s : Tables) (q : HistoryQuery) (page : HistoryPage) (n : ℕ)
    (cursor : Option HistoryCursor)
    → KeepsCursors tokens
    → All (IsStored codec) s.events
    → AllDiffer s.events
    → history_bounds tokens q ≡ ok (n, cursor)
    → list_conformance_events codec tokens s q ≡ ok page
    → LastPage codec tokens s q cursor page
      ⊎ (PageBefore codec tokens s q n cursor page ⊎ IsTooLong codec tokens s q page)
unfolding list_conformance_events
list_conformance_events_pages codec tokens s q page n cursor keeps stored unique bounds h =
    let (valid, size) = bounds-valid codec tokens s q n cursor bounds in
    let (m, positive) = page_limit-suc q.page_size in
    let same : n ≡ suc m = sym size ∙ positive in
    let pages =
      page_of-pages codec tokens s q cursor m keeps stored unique valid positive
        (history_rows codec s q cursor) page refl in
    subst
      (λ k.
        page_of codec s q tokens k (limited (suc k) (history_rows codec s q cursor)) ≡ ok page
        → LastPage codec tokens s q cursor page
          ⊎ (PageBefore codec tokens s q k cursor page ⊎ IsTooLong codec tokens s q page))
      (sym same) pages (rw bounds at h)
