-- ===== src/Prelude/TextOrder.antt =====
-- The order of Go strings is a strict total order.
use Prim.Native.Nat.{Ordering}
use Prim.Native.String.compare
use Prim.Native.String.{String, compare}
use mathlib.Core.Path.{◌≡◌}
use mathlib.Core.Bool.{true, false}
use native.Mathlib.Omega.{arith}
use text.Mathlib.TextEquality.{path_by_compare}
use aero_arc_conformance.Prelude.Text.{str_lt}

pub str_lt_asymm : (s t : String) → str_lt s t ≡ true → str_lt t s ≡ false
str_lt_asymm String.[] String.[] h = ground (arith, compare.nil-nil)
str_lt_asymm String.[] (String.◌∷◌ d t) h = ground (arith, compare.cons-nil d t)
str_lt_asymm (String.◌∷◌ c s) String.[] h = ground (arith, compare.cons-nil c s)
str_lt_asymm (String.◌∷◌ c s) (String.◌∷◌ d t) h =
    ground (arith, compare.cons-cons c d s t, compare.cons-cons d c t s, str_lt_asymm s t)

compare_eq : (s t : String) → str_lt s t ≡ false → str_lt t s ≡ false → compare s t ≡ Ordering.eq
compare_eq String.[] String.[] h k = compare.nil-nil
compare_eq String.[] (String.◌∷◌ d t) h k = ground (arith, compare.nil-cons d t)
compare_eq (String.◌∷◌ c s) String.[] h k = ground (arith, compare.nil-cons c s)
compare_eq (String.◌∷◌ c s) (String.◌∷◌ d t) h k =
    ground (arith, compare.cons-cons c d s t, compare.cons-cons d c t s, compare_eq s t)

pub str_lt_trichotomy : (s t : String) → str_lt s t ≡ false → str_lt t s ≡ false → s ≡ t
str_lt_trichotomy s t h k = path_by_compare s t (compare_eq s t h k)

pub str_lt_irrefl : (s : String) → str_lt s s ≡ false
str_lt_irrefl String.[] = ground (arith, compare.nil-nil)
str_lt_irrefl (String.◌∷◌ c s) = ground (arith, compare.cons-cons c c s s, str_lt_irrefl s)

pub str_lt_trans : (s t u : String) → str_lt s t ≡ true → str_lt t u ≡ true → str_lt s u ≡ true
str_lt_trans String.[] String.[] u h k = ground (arith, compare.nil-nil)
str_lt_trans s (String.◌∷◌ d t) String.[] h k = ground (arith, compare.cons-nil d t)
str_lt_trans String.[] (String.◌∷◌ d t) (String.◌∷◌ e u) h k = ground (arith, compare.nil-cons e u)
str_lt_trans (String.◌∷◌ c s) String.[] u h k = ground (arith, compare.cons-nil c s)
str_lt_trans (String.◌∷◌ c s) (String.◌∷◌ d t) (String.◌∷◌ e u) h k = ground (
  arith,
  compare.cons-cons c d s t,
  compare.cons-cons d e t u,
  compare.cons-cons c e s u,
  str_lt_trans s t u,
)
