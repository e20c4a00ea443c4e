-- ===== src/Evaluator/Overrun.antt =====
-- The spatial reference after every planned volume has ended: `terminalOverrunVolumes` of
-- internal/evaluator/evaluator.go.
use Prim.Native.Nat.{max}
use mathlib.Core.List.{append_assoc, append-nil}
use aero_arc_conformance.Prelude.{
  ◌<◌, ◌⊎◌, ◌≡◌, refl, ap, ◌∙◌, inl, inr, not, ◌||◌, some, List, [], ◌∷◌, ◌++◌, ◌==◌, nat_eq, ltb,
  if◌then◌else◌, is_empty, keep_if, All, arith,
}
use aero_arc_conformance.Domain.Time.{Time, before}
use aero_arc_conformance.Domain.Assignment.{Volume, Assignment}
use aero_arc_conformance.Evaluator.Spatial.{
  Latest, no_latest, latest_step, latest_of, outside_window, overrun, terminal_overrun_volumes,
}

-- The latest end, and the volumes that end then.
abbrev pub max_end : List Volume → Time
max_end [] = 0
max_end (v ∷ vs) = max v.ends_at (max_end vs)

abbrev pub ending_at : Time → List Volume → List Volume
ending_at t vs = keep_if (λ v. v.ends_at == t) vs

-- What the loop holds when `vs` are the volumes seen so far that end last, at `t`.
summary : Time → List Volume → Latest
summary t [] = no_latest
summary t (v ∷ vs) = record { end = t; volume = some v; ambiguous = not (is_empty vs) }

abbrev Ends : Volume → Type 0
Ends v = 0 < v.ends_at

later_step :
    (t : Time) (w : Volume) (ws : List Volume) (v : Volume)
    → 0 < t
    → latest_step (summary t (w ∷ ws)) v ≡ (
        if ltb t v.ends_at
        then summary v.ends_at (v ∷ [])
        else if v.ends_at == t
        then summary t (w ∷ ws ++ v ∷ [])
        else summary t (w ∷ ws))
unfolding latest_step summary
later_step t w [] v h = ground arith
later_step t w (x ∷ ws) v h = ground arith

-- The volumes that end last among those seen and those to come.
abbrev last_group : Time → List Volume → List Volume → Latest
last_group t ws vs =
    if ltb t (max_end vs)
    then summary (max_end vs) (ending_at (max_end vs) vs)
    else summary t (ws ++ ending_at t vs)

group_later :
    (t : Time) (w : Volume) (ws : List Volume) (v : Volume) (vs : List Volume)
    → t < v.ends_at
    → last_group v.ends_at (v ∷ []) vs ≡ last_group t (w ∷ ws) (v ∷ vs)
group_later t w ws v vs h = ground arith

group_same :
    (t : Time) (w : Volume) (ws : List Volume) (v : Volume) (vs : List Volume)
    → v.ends_at ≡ t
    → last_group t (w ∷ ws ++ v ∷ []) vs ≡ last_group t (w ∷ ws) (v ∷ vs)
group_same t w ws v vs h = ground (arith, append_assoc ws (v ∷ []) (ending_at t vs))

group_earlier :
    (t : Time) (w : Volume) (ws : List Volume) (v : Volume) (vs : List Volume)
    → v.ends_at < t
    → last_group t (w ∷ ws) vs ≡ last_group t (w ∷ ws) (v ∷ vs)
group_earlier t w ws v vs h = ground arith

compared : (t e : Time) → (t < e) ⊎ ((e ≡ t) ⊎ (e < t))
compared t e = ground arith

latest_of-group :
    (vs : List Volume) (t : Time) (w : Volume) (ws : List Volume)
    → 0 < t
    → latest_of (summary t (w ∷ ws)) vs ≡ last_group t (w ∷ ws) vs
unfolding latest_of
latest_of-group [] t w ws h = ground (arith, append-nil ws)
latest_of-group (v ∷ vs) t w ws h = elim (compared t v.ends_at) [
  | inl later ↦
      ap (λ l. latest_of l vs) (later_step t w ws v h ∙ ground arith)
      ∙ latest_of-group vs v.ends_at v [] (omega arith)
      ∙ group_later t w ws v vs later
  | inr (inl same) ↦
      ap (λ l. latest_of l vs) (later_step t w ws v h ∙ ground arith)
      ∙ latest_of-group vs t w (ws ++ v ∷ []) h
      ∙ group_same t w ws v vs same
  | inr (inr earlier) ↦
      ap (λ l. latest_of l vs) (later_step t w ws v h ∙ ground arith)
      ∙ latest_of-group vs t w ws h
      ∙ group_earlier t w ws v vs earlier
]

first_step : (v : Volume) → latest_step no_latest v ≡ summary v.ends_at (v ∷ [])
unfolding latest_step summary
first_step v = refl

group_first :
    (v : Volume) (vs : List Volume)
    → last_group v.ends_at (v ∷ []) vs
      ≡ summary (max_end (v ∷ vs)) (ending_at (max_end (v ∷ vs)) (v ∷ vs))
group_first v vs = ground arith

latest_of-All :
    (vs : List Volume)
    → All Ends vs
    → latest_of no_latest vs ≡ summary (max_end vs) (ending_at (max_end vs) vs)
unfolding latest_of summary
latest_of-All [] h = refl
latest_of-All (v ∷ vs) h =
    ap (λ l. latest_of l vs) (first_step v)
    ∙ latest_of-group vs v.ends_at v [] h.0
    ∙ group_first v vs

-- A list of one volume; any other is ambiguous or empty.
abbrev pub only_one : List Volume → List Volume
only_one (v ∷ []) = v ∷ []
only_one _ = []

overrun-summary :
    (t e : Time) (vs : List Volume)
    → overrun (summary e vs) t (summary e vs).volume ≡ (if before t e then [] else only_one vs)
unfolding summary
overrun-summary t e [] = ground arith
overrun-summary t e (v ∷ []) = ground arith
overrun-summary t e (v ∷ w ∷ vs) = ground arith

-- Inside the assignment's window and once every volume has ended, the reference is the volume that
-- ends last, if one alone does; where two volumes end last together, where some volume has still to
-- end (also in a gap between volumes) and outside the window there is none.
pub terminal_overrun_volumes_lem :
    (a : Assignment) (t : Time)
    → All Ends a.volumes
    → terminal_overrun_volumes a t ≡ (
        if outside_window t a.effective_from a.effective_until || before t (max_end a.volumes)
        then []
        else only_one (ending_at (max_end a.volumes) a.volumes))
unfolding terminal_overrun_volumes
terminal_overrun_volumes_lem a t h = ground (
  arith,
  latest_of-All a.volumes h,
  overrun-summary t (max_end a.volumes) (ending_at (max_end a.volumes) a.volumes),
)
