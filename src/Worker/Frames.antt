-- ===== src/Worker/Frames.antt =====
-- The frames that were seen: the map `seenFrames` of `readComplete`, internal/worker/evaluation.go.
use mathlib.Core.Bool.{false≢true}
use mathlib.Core.List.{append-nil}
use aero_arc_conformance.Prelude.{
  ◌≡◌, refl, ap, inl, inr, true, ◌==◌, string_eq, List, [], ◌∷◌, ◌++◌, String, any_of, Bool-cases,
  arith, ==→eq,
}
use aero_arc_conformance.Domain.Assignment.{Observation}
use aero_arc_conformance.Worker.Split.{deduplicate}

abbrev Seen : List String → String → Type 0
Seen seen f = any_of (λ g. g == f) seen ≡ true

Seen-again :
    (early seen : List String) (g f : String)
    → ((f : String) → Seen early f → Seen seen f)
    → Seen seen g
    → Seen (g ∷ early) f
    → Seen seen f
Seen-again early seen g f h k l = elim (Bool-cases (g == f)) [
  | inl same ↦ rw (← ==→eq g f same) k
  | inr other ↦ h f (rw other at l)
]

Seen-with :
    (early seen : List String) (g f : String)
    → ((f : String) → Seen early f → Seen seen f)
    → Seen (g ∷ early) f
    → Seen (g ∷ seen) f
Seen-with early seen g f h l = elim (Bool-cases (g == f)) [
  | inl same ↦ rw same
  | inr other ↦ rw other (h f (rw other at l))
]

-- Frames that were seen already may be left out at once.
pub deduplicate_early :
    (early seen : List String) (xs ys : List Observation)
    → ((f : String) → Seen early f → Seen seen f)
    → deduplicate seen (deduplicate early xs ++ ys) ≡ deduplicate seen (xs ++ ys)
unfolding deduplicate
deduplicate_early early seen [] ys h = refl
deduplicate_early early seen (o ∷ xs) ys h =
    elim (Bool-cases (any_of (λ g. g == o.frame_id) early)) [
      | inl old ↦ rw (old, h o.frame_id old) (deduplicate_early early seen xs ys h)
      | inr new ↦ elim (Bool-cases (any_of (λ g. g == o.frame_id) seen)) [
        | inl known ↦
            rw (new, known)
              (deduplicate_early (o.frame_id ∷ early) seen xs ys
                (λ f k. Seen-again early seen o.frame_id f h known k))
        | inr fresh ↦
            rw (new, fresh)
              (ap (◌∷◌ o) (
                deduplicate_early (o.frame_id ∷ early) (o.frame_id ∷ seen) xs ys
                  (λ f k. Seen-with early seen o.frame_id f h k)))
      ]
    ]

pub deduplicate_late :
    (seen : List String) (xs ys : List Observation)
    → deduplicate seen (xs ++ deduplicate [] ys) ≡ deduplicate seen (xs ++ ys)
unfolding deduplicate
deduplicate_late seen [] ys =
    simp append-nil at (deduplicate_early [] seen ys [] (λ f k. absurd (false≢true k)))
deduplicate_late seen (o ∷ xs) ys =
    ground (arith, deduplicate_late seen xs ys, deduplicate_late (o.frame_id ∷ seen) xs ys)
