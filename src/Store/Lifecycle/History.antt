-- ===== src/Store/Lifecycle/History.antt =====
-- The generations of an assignment over its commands: `PrepareAssignment`, `transitionCandidate` and
-- `CutoverAssignment` of internal/store/postgres/store.go.
use aero_arc_conformance.Prelude.{
  ℕ, ◌<◌, ◌≡◌, refl, ap, inl, inr, Bool, true, false, ◌&&◌, ◌||◌, ◌==◌, nat_eq, string_eq, ltb,
  if◌then◌else◌, Option, none, some, List, [], ◌∷◌, String, Bool-cases, Option-cases, arith,
  eq_self, and_split,
}
use aero_arc_conformance.Domain.Time.{Time, UnixNano, unix_nano, supported_unix_nanoseconds}
use aero_arc_conformance.Domain.Types.{AssignmentLifecycle}
use aero_arc_conformance.Store.Tables.{
  Row, has_id, has_key, is_current, is_armed, first, update_where, Codec,
}
use aero_arc_conformance.Store.Lifecycle.Prepare.{candidate_of, superseded_candidate}
use aero_arc_conformance.Store.Lifecycle.Commands.{
  Target, arm, cancel, with_target, target_state, reaches,
}
use aero_arc_conformance.Store.Lifecycle.Cutover.{current_of, superseded_current, activated}

abbrev no_interval : Option UnixNano → Option UnixNano → Bool
no_interval none none = true
no_interval _ _ = false

abbrev proper_interval : Option UnixNano → Option UnixNano → Bool
proper_interval (some from) (some until) = ltb from until
proper_interval _ _ = false

-- The interval ends where the next newer one begins.
abbrev closed_at : Option UnixNano → Option UnixNano → Bool
closed_at (some limit) (some until) = until == limit
closed_at _ _ = false

abbrev is_missing : Option UnixNano → Bool
is_missing none = true
is_missing (some _) = false

-- A generation among its assignment's: `limit` is the start of the next newer authority interval,
-- and `fresh` says that no generation is newer.
abbrev stands :
    Option UnixNano → Bool → AssignmentLifecycle → Option UnixNano → Option UnixNano → Bool
stands limit fresh AssignmentLifecycle.candidate_received from until =
    fresh && no_interval from until
stands limit fresh AssignmentLifecycle.candidate_armed from until = fresh && no_interval from until
stands limit fresh AssignmentLifecycle.cancelled from until = no_interval from until
stands limit fresh AssignmentLifecycle.active from until =
    is_missing limit && proper_interval from until
stands limit fresh AssignmentLifecycle.ending from until =
    is_missing limit && proper_interval from until
stands limit fresh AssignmentLifecycle.superseded from until =
    no_interval from until || (proper_interval from until && closed_at limit until)
stands limit fresh AssignmentLifecycle.completed from until = false

abbrev next_limit : Option UnixNano → Option UnixNano → Option UnixNano
next_limit limit none = limit
next_limit limit (some from) = some from

-- The end of the effective window can be stored.
abbrev has_window : Row → Bool
has_window r = supported_unix_nanoseconds r.assignment.effective_until

module _ (id : String) where
  -- The generations of one assignment, the newest first: at most the newest is a candidate, at most
  -- one is current, the current one has the newest authority interval, no other state but superseded
  -- has one, each is proper, and each older interval ends where the next newer one begins.
  unfoldable pub is_history : Option UnixNano → Bool → List Row → Bool
  is_history limit fresh [] = true
  is_history limit fresh (r ∷ rs) =
      let rest = is_history (next_limit limit r.authority_from) false rs in
      let same = is_history limit fresh rs in
      if has_id id r
      then stands limit fresh r.lifecycle r.authority_from r.authority_until && has_window r && rest
      else same

  pub supersede-is_history :
      (limit : Option UnixNano) (fresh : Bool) (rs : List Row)
      → is_history limit fresh rs ≡ true
      → is_history limit false (update_where (candidate_of id) superseded_candidate rs) ≡ true
  unfolding is_history
  supersede-is_history limit fresh [] h = refl
  supersede-is_history limit fresh (r ∷ rs) h = ground (
    arith,
    supersede-is_history (next_limit limit r.authority_from) false rs,
    supersede-is_history limit fresh rs,
  )

  -- An update of armed or of current generations leaves those behind another one as they are.
  armed_behind-is_history :
      (f : Row → Row) (generation : ℕ) (limit : Option UnixNano) (rs : List Row)
      → is_history limit false rs ≡ true
      → is_history limit false
          (update_where (λ r. has_key id generation r && is_armed r.lifecycle) f rs)
        ≡ true
  unfolding is_history
  armed_behind-is_history f generation limit [] h = refl
  armed_behind-is_history f generation limit (r ∷ rs) h = ground (
    arith,
    armed_behind-is_history f generation (next_limit limit r.authority_from) rs,
    armed_behind-is_history f generation limit rs,
  )

  current_behind-is_history :
      (f : Row → Row) (generation : ℕ) (limit : UnixNano) (rs : List Row)
      → is_history (some limit) false rs ≡ true
      → is_history
          (some limit)
          false
          (update_where (λ r. has_key id generation r && is_current r.lifecycle) f rs)
        ≡ true
  unfolding is_history
  current_behind-is_history f generation limit [] h = refl
  current_behind-is_history f generation limit (r ∷ rs) h = elim (Option-cases r.authority_from) [
    | inl no_from ↦ ground (arith, no_from, current_behind-is_history f generation limit rs)
    | inr (from, has_from) ↦ ground (
      arith,
      has_from,
      current_behind-is_history f generation limit rs,
      current_behind-is_history f generation from rs,
    )
  ]

  -- Without a current generation there is no authority, and any limit will do.
  pub no_current-is_history :
      (fresh : Bool) (limit : UnixNano) (rs : List Row)
      → is_history none fresh rs ≡ true
      → first (current_of id) rs ≡ none
      → is_history (some limit) fresh rs ≡ true
  unfolding is_history
  no_current-is_history fresh limit [] h k = refl
  no_current-is_history fresh limit (r ∷ rs) h k =
      ground (arith, no_current-is_history fresh limit rs, no_current-is_history false limit rs)

  behind-not_armed :
      (generation : ℕ) (limit : Option UnixNano) (rs : List Row) (c : Row)
      → is_history limit false rs ≡ true
      → first (has_key id generation) rs ≡ some c
      → is_armed c.lifecycle ≡ false
  unfolding is_history
  behind-not_armed generation limit [] c h k = cc
  behind-not_armed generation limit (r ∷ rs) c h k = ground (
    arith,
    behind-not_armed generation limit rs c,
    behind-not_armed generation (next_limit limit r.authority_from) rs c,
  )

  pub first-window :
      (generation : ℕ) (limit : Option UnixNano) (fresh : Bool) (rs : List Row) (c : Row)
      → is_history limit fresh rs ≡ true
      → first (has_key id generation) rs ≡ some c
      → has_window c ≡ true
  unfolding is_history
  first-window generation limit fresh [] c h k = cc
  first-window generation limit fresh (r ∷ rs) c h k = ground (
    arith,
    first-window generation limit fresh rs c,
    first-window generation (next_limit limit r.authority_from) false rs c,
  )

  -- An update of another assignment's generations.
  pub update_other-is_history :
      (p : Row → Bool) (f : Row → Row) (limit : Option UnixNano) (fresh : Bool) (rs : List Row)
      → ((r : Row) → p r ≡ true → has_id id r ≡ false)
      → ((r : Row) → (f r).assignment ≡ r.assignment)
      → is_history limit fresh (update_where p f rs) ≡ is_history limit fresh rs
  unfolding is_history
  update_other-is_history p f limit fresh [] other keeps = refl
  update_other-is_history p f limit fresh (r ∷ rs) other keeps = elim (Bool-cases (p r)) [
    | inl changed ↦
        let same = ap (λ a. a.id == id) (keeps r) in
        ground
          (arith, other r changed, same, update_other-is_history p f limit fresh rs other keeps)
    | inr unchanged ↦ ground (
      arith,
      update_other-is_history p f limit fresh rs other keeps,
      update_other-is_history p f (next_limit limit r.authority_from) false rs other keeps,
    )
  ]

  target_stands :
      (target : Target) (limit : Option UnixNano) (fresh : Bool) (l : AssignmentLifecycle)
      (from until : Option UnixNano)
      → reaches target l ≡ true
      → stands limit fresh l from until ≡ true
      → stands limit fresh (target_state target) from until ≡ true
  target_stands arm limit fresh l from until k h = ground arith
  target_stands cancel limit fresh l from until k h = ground arith

  pub target_row :
      (now : Time) (target : Target) (r : Row)
      → ((with_target now target r).assignment ≡ r.assignment)
        × ((with_target now target r).lifecycle ≡ target_state target)
        × ((with_target now target r).authority_from ≡ r.authority_from)
        × ((with_target now target r).authority_until ≡ r.authority_until)
  target_row now arm r = (refl, refl, refl, refl)
  target_row now cancel r = (refl, refl, refl, refl)

  -- One row replaced by one that stands in its place.
  replace_head :
      (limit : Option UnixNano) (fresh : Bool) (r q : Row) (rs qs : List Row)
      → q.assignment ≡ r.assignment
      → q.authority_from ≡ r.authority_from
      → (has_id id r ≡ true
          → stands limit fresh r.lifecycle r.authority_from r.authority_until ≡ true
          → stands limit fresh q.lifecycle q.authority_from q.authority_until ≡ true)
      → (is_history (next_limit limit r.authority_from) false rs ≡ true
          → is_history (next_limit limit r.authority_from) false qs ≡ true)
      → (is_history limit fresh rs ≡ true → is_history limit fresh qs ≡ true)
      → is_history limit fresh (r ∷ rs) ≡ true
      → is_history limit fresh (q ∷ qs) ≡ true
  unfolding is_history
  replace_head limit fresh r q rs qs same from stand tail rest h =
      let window = ap (λ a. supported_unix_nanoseconds a.effective_until) same in
      let own = ap (λ a. a.id == id) same in ground (arith, from, window, own)

  -- Arming or cancelling keeps the history.
  pub target-is_history :
      (now : Time) (target : Target) (generation : ℕ) (limit : Option UnixNano) (fresh : Bool)
      (rs : List Row)
      → is_history limit fresh rs ≡ true
      → is_history limit fresh (
          update_where
            (λ r. has_key id generation r && reaches target r.lifecycle)
            (with_target now target)
            rs)
        ≡ true
  unfolding is_history
  target-is_history now target generation limit fresh [] h = refl
  target-is_history now target generation limit fresh (r ∷ rs) h =
      let tail =
        target-is_history now target generation (next_limit limit r.authority_from) false rs in
      let rest = target-is_history now target generation limit fresh rs in
      elim (Bool-cases (has_key id generation r && reaches target r.lifecycle)) [
        | inl changed ↦
            let (assignment, lifecycle, from, until) = target_row now target r in
            rw changed (
              replace_head limit fresh r (with_target now target r) rs _ assignment from
                (λ own stood. rw lifecycle (
                  rw from (
                    rw until (
                      target_stands target limit fresh r.lifecycle r.authority_from
                        r.authority_until (and_split _ _ changed).1 stood))))
                tail rest h)
        | inr unchanged ↦
            rw unchanged
              (replace_head limit fresh r r rs _ refl refl (λ own stood. stood) tail rest h)
      ]

some_inj : {a b : Row} → some a ≡ some b → a ≡ b
some_inj h = cc

module _ (codec : Codec) (now : Time) (effective_at : Time) (id : String) where
  abbrev close : ℕ → List Row → List Row
  close generation rs =
      update_where (λ r. has_key id generation r && is_current r.lifecycle)
        (superseded_current codec now effective_at) rs

  abbrev open_at : ℕ → Time → List Row → List Row
  open_at generation until rs =
      update_where (λ r. has_key id generation r && is_armed r.lifecycle)
        (activated codec now effective_at until) rs

  pub close-is_history :
      (fresh : Bool) (rs : List Row) (c : Row) (from : UnixNano)
      → is_history id none fresh rs ≡ true
      → first (current_of id) rs ≡ some c
      → c.authority_from ≡ some from
      → from < unix_nano effective_at
      → is_history id (some (unix_nano effective_at)) fresh (close c.assignment.generation rs)
        ≡ true
  unfolding is_history
  close-is_history fresh [] c from h k has_from early = cc
  close-is_history fresh (r ∷ rs) c from h k has_from early = elim (Bool-cases (current_of id r)) [
    | inl current ↦
        let same : r ≡ c = some_inj (rw current at k) in
        ground (
          arith,
          same,
          has_from,
          eq_self c.assignment.generation,
          current_behind-is_history id (superseded_current codec now effective_at)
              c.assignment.generation from rs,
        )
    | inr not_current ↦
        ground (arith, close-is_history fresh rs c from, close-is_history false rs c from)
  ]

  pub first-close :
      (generation closed : ℕ) (rs : List Row) (c : Row)
      → first (has_key id generation) rs ≡ some c
      → is_armed c.lifecycle ≡ true
      → first (has_key id generation) (close closed rs) ≡ some c
  first-close generation closed [] c k armed = cc
  first-close generation closed (r ∷ rs) c k armed =
      ground (arith, first-close generation closed rs c)

  pub open-is_history :
      (generation : ℕ) (until : Time) (rs : List Row) (c : Row)
      → is_history id (some (unix_nano effective_at)) true rs ≡ true
      → first (has_key id generation) rs ≡ some c
      → is_armed c.lifecycle ≡ true
      → unix_nano effective_at < unix_nano until
      → is_history id none true (open_at generation until rs) ≡ true
  unfolding is_history
  open-is_history generation until [] c h k armed proper = cc
  open-is_history generation until (r ∷ rs) c h k armed proper = ground (
    arith,
    open-is_history generation until rs c,
    armed_behind-is_history id (activated codec now effective_at until) generation
        (some (unix_nano effective_at)) rs,
    behind-not_armed id generation (next_limit (some (unix_nano effective_at)) r.authority_from) rs
        c,
  )
