-- ===== src/Store/Keyset.antt =====
-- The order of the history's rows, sorting and filtering: what the keyset of
-- internal/store/postgres/history.go relies on.
use mathlib.Core.Path.{subst}
use aero_arc_conformance.Prelude.{
  ℕ, suc, ◌≡◌, ◌≢◌, refl, ap, ◌∙◌, inl, inr, Bool, true, false, nat_eq, string_eq, str_lt,
  if◌then◌else◌, List, [], ◌∷◌, String, keep_if, All, arith, Bool-cases, str_lt_trans, str_lt_asymm,
  str_lt_irrefl, str_lt_trichotomy,
}
use aero_arc_conformance.Store.Rows.{EventRow}
use aero_arc_conformance.Store.Tables.{Tables, Codec}
use aero_arc_conformance.Store.Outbox.{insert_by, sort_by}
use aero_arc_conformance.Store.History.{HistoryQuery, is_older, newer_first, last_of_page}

str_lt_closed : (s t u : String) → str_lt s u ≡ true → str_lt s t ≡ false → str_lt t u ≡ true
str_lt_closed s t u h k = elim (Bool-cases (str_lt t s)) [
  | inl less ↦ str_lt_trans t s u less h
  | inr equal ↦ subst (λ v. str_lt v u ≡ true) (str_lt_trichotomy s t k equal) h
]

-- What is not newer than an older row is older, too.
pub older_closed :
    (x y l : EventRow) → is_older x l ≡ true → is_older x y ≡ false → is_older y l ≡ true
older_closed x y l h k = ground (arith, str_lt_closed x.event_id y.event_id l.event_id)

older_asymm : (x y : EventRow) → is_older x y ≡ true → is_older y x ≡ false
older_asymm x y h = ground (arith, str_lt_asymm x.event_id y.event_id)

older_irrefl : (x : EventRow) → is_older x x ≡ false
older_irrefl x = ground (arith, str_lt_irrefl x.event_id)

abbrev pub Differs : EventRow → EventRow → Type 0
Differs x y = x.event_id ≢ y.event_id

older_total : (x y : EventRow) → Differs x y → is_older x y ≡ false → is_older y x ≡ true
older_total x y differs h = elim (Bool-cases (is_older y x)) [
  | inl older ↦ older
  | inr newer ↦
      absurd (differs (str_lt_trichotomy x.event_id y.event_id (forward newer) (backward newer)))
]
  where
    forward : is_older y x ≡ false → str_lt x.event_id y.event_id ≡ false
    forward k = ground (arith, h, k)

    backward : is_older y x ≡ false → str_lt y.event_id x.event_id ≡ false
    backward k = ground (arith, h, k)

abbrev sorted : List EventRow → List EventRow
sorted xs = sort_by newer_first xs

-- Filtering by a row that the kept ones are older than commutes with sorting.
module _ (l : EventRow) where
  abbrev kept : List EventRow → List EventRow
  kept xs = keep_if (λ e. is_older e l) xs

  kept-insert :
      (x : EventRow) (ys : List EventRow)
      → kept (insert_by newer_first x ys)
        ≡ (if is_older x l then insert_by newer_first x (kept ys) else kept ys)
  unfolding insert_by
  kept-insert x [] = ground arith
  kept-insert x (y ∷ ys) = ground (arith, kept-insert x ys, older_closed x y l)

  pub kept-sort : (xs : List EventRow) → kept (sorted xs) ≡ sorted (kept xs)
  unfolding sort_by
  kept-sort [] = refl
  kept-sort (x ∷ xs) = elim (Bool-cases (is_older x l)) [
    | inl older ↦ kept-insert x (sorted xs) ∙ rw older (ap (insert_by newer_first x) (kept-sort xs))
    | inr newer ↦ kept-insert x (sorted xs) ∙ rw newer (kept-sort xs)
  ]

-- The newest row first, and no two rows alike.
abbrev pub Descends : List EventRow → Type 0
Descends [] = Unit
Descends (x ∷ xs) = All (λ y. is_older y x ≡ true) xs × Descends xs

abbrev pub AllDiffer : List EventRow → Type 0
AllDiffer [] = Unit
AllDiffer (x ∷ xs) = All (Differs x) xs × AllDiffer xs

module _ (P : EventRow → Type 0) where
  insert-All :
      (x : EventRow) (ys : List EventRow) → P x → All P ys → All P (insert_by newer_first x ys)
  unfolding insert_by
  insert-All x [] h k = (h, tt)
  insert-All x (y ∷ ys) h k = elim (Bool-cases (newer_first y x)) [
    | inl before ↦ rw before (k.0, insert-All x ys h k.1)
    | inr after ↦ rw after (h, k)
  ]

  pub sort-All : (xs : List EventRow) → All P xs → All P (sorted xs)
  unfolding sort_by
  sort-All [] h = tt
  sort-All (x ∷ xs) h = insert-All x (sorted xs) h.0 (sort-All xs h.1)

  pub keep_if-All : (p : EventRow → Bool) (xs : List EventRow) → All P xs → All P (keep_if p xs)
  keep_if-All p [] h = tt
  keep_if-All p (x ∷ xs) h = elim (Bool-cases (p x)) [
    | inl keeps ↦ rw keeps (h.0, keep_if-All p xs h.1)
    | inr drops ↦ rw drops (keep_if-All p xs h.1)
  ]

pub keep_if-AllDiffer :
    (p : EventRow → Bool) (xs : List EventRow) → AllDiffer xs → AllDiffer (keep_if p xs)
keep_if-AllDiffer p [] h = tt
keep_if-AllDiffer p (x ∷ xs) h = elim (Bool-cases (p x)) [
  | inl keeps ↦ rw keeps (keep_if-All (Differs x) p xs h.0, keep_if-AllDiffer p xs h.1)
  | inr drops ↦ rw drops (keep_if-AllDiffer p xs h.1)
]

All-older :
    (x y : EventRow) (ys : List EventRow)
    → is_older y x ≡ true
    → All (λ z. is_older z y ≡ true) ys
    → All (λ z. is_older z x ≡ true) ys
All-older x y [] h k = tt
All-older x y (z ∷ zs) h k = (older_trans, All-older x y zs h k.1)
  where
    older_trans : is_older z x ≡ true
    older_trans = ground (arith, h, k.0, str_lt_trans z.event_id y.event_id x.event_id)

insert-Descends :
    (x : EventRow) (ys : List EventRow)
    → All (Differs x) ys
    → Descends ys
    → Descends (insert_by newer_first x ys)
unfolding insert_by
insert-Descends x [] h k = (tt, tt)
insert-Descends x (y ∷ ys) h k = elim (Bool-cases (newer_first y x)) [
  | inl before ↦
      rw before
        (insert-All (λ z. is_older z y ≡ true) x ys before k.0, insert-Descends x ys h.1 k.1)
  | inr after ↦
      let older = older_total x y h.0 after in rw after ((older, All-older x y ys older k.0), k)
]

pub sort-Descends : (xs : List EventRow) → AllDiffer xs → Descends (sorted xs)
unfolding sort_by
sort-Descends [] h = tt
sort-Descends (x ∷ xs) h =
    insert-Descends x (sorted xs) (sort-All (Differs x) xs h.0) (sort-Descends xs h.1)

-- The entries after the first `size` ones.
abbrev pub remainder : ℕ → List EventRow → List EventRow
remainder size [] = []
remainder ℕ.zero (x ∷ xs) = x ∷ xs
remainder (suc size) (x ∷ xs) = remainder size xs

kept_whole :
    (l : EventRow) (xs : List EventRow)
    → All (λ y. is_older y l ≡ true) xs
    → keep_if (λ y. is_older y l) xs ≡ xs
kept_whole l [] h = refl
kept_whole l (x ∷ xs) h = rw h.0 (ap (λ ys. x ∷ ys) (kept_whole l xs h.1))

module _ (codec : Codec) (s : Tables) (q : HistoryQuery) where
  pub last_of_page-All :
      (P : EventRow → Type 0) (e : EventRow) (size : ℕ) (xs : List EventRow)
      → P e
      → All P xs
      → P (last_of_page codec s q e size xs)
  last_of_page-All P e size [] h k = h
  last_of_page-All P e ℕ.zero (x ∷ xs) h k = h
  last_of_page-All P e (suc size) (x ∷ xs) h k = last_of_page-All P x size xs k.0 k.1

  -- In rows that descend, those older than the last of the page are those after the page.
  pub older-remainder :
      (x : EventRow) (size : ℕ) (xs : List EventRow)
      → Descends (x ∷ xs)
      → keep_if (λ y. is_older y (last_of_page codec s q x (suc size) (x ∷ xs))) (x ∷ xs)
        ≡ remainder (suc size) (x ∷ xs)
  older-remainder x ℕ.zero [] h = rw (older_irrefl x) refl
  older-remainder x ℕ.zero (y ∷ ys) h = rw (older_irrefl x) (kept_whole x (y ∷ ys) h.0)
  older-remainder x (suc size) [] h = rw (older_irrefl x) refl
  older-remainder x (suc size) (y ∷ ys) h =
      let l = last_of_page codec s q y size ys in
      let older = last_of_page-All (λ z. is_older z x ≡ true) y size ys h.0.0 h.0.1 in
      rw (older_asymm l x older) (older-remainder y size ys h.1)
