-- ===== src/Domain/Float.antt =====
-- Go's float64 by its IEEE 754 bit pattern. The comparisons are those of the language; the rounding
-- operations and the functions of package math that round are the parameter `Arithmetic`.
use aero_arc_conformance.Prelude.{
  ℕ, ℤ, ◌+◌, ◌-◌, ◌%◌, ◌^◌, ◌≡◌, Bool, true, false, not, ◌&&◌, ◌||◌, ◌==◌, nat_eq, ltb, leb,
  if◌then◌else◌, arith,
}

pub record Float64 : Type 0 where
  pub bits : ℕ

-- All bits but the sign.
abbrev magnitude : Float64 → ℕ
magnitude x = x.bits % 2 ^ 63

abbrev is_negative : Float64 → Bool
is_negative x = leb (2 ^ 63) x.bits

abbrev infinite_magnitude : ℕ
infinite_magnitude = 0x7ff0000000000000

-- math.IsNaN.
unfoldable pub is_nan : Float64 → Bool
is_nan x = ltb infinite_magnitude (magnitude x)

-- math.IsInf(x, 0).
unfoldable pub is_inf : Float64 → Bool
is_inf x = magnitude x == infinite_magnitude

-- The place of a number in the order of the reals; both zeros have one place.
abbrev rank : Float64 → ℕ
rank x = if is_negative x then 2 ^ 63 - magnitude x else 2 ^ 63 + magnitude x

-- x < y, x <= y: false where one side is not a number.
unfoldable pub float_lt : Float64 → Float64 → Bool
unfolding is_nan
float_lt x y = not (is_nan x) && not (is_nan y) && ltb (rank x) (rank y)

unfoldable pub float_le : Float64 → Float64 → Bool
unfolding is_nan
float_le x y = not (is_nan x) && not (is_nan y) && leb (rank x) (rank y)

abbrev pub zero_float : Float64
zero_float = record { bits = 0 }

abbrev pub one_float : Float64
one_float = record { bits = 0x3ff0000000000000 }

abbrev pub infinity : Float64
infinity = record { bits = infinite_magnitude }

-- math.Abs: the sign bit cleared.
unfoldable pub abs : Float64 → Float64
abs x = record { bits = magnitude x }

-- -x: the sign bit flipped.
unfoldable pub negate : Float64 → Float64
negate x = record { bits = if is_negative x then x.bits - 2 ^ 63 else x.bits + 2 ^ 63 }

-- math.Max.
unfoldable pub max_float : Float64 → Float64 → Float64
unfolding is_nan float_lt
max_float x y =
    if x.bits == infinite_magnitude || y.bits == infinite_magnitude
    then infinity
    else if is_nan x || is_nan y
    then record { bits = 0x7ff8000000000001 }
    else if magnitude x == 0 && magnitude y == 0
    then (if is_negative x then y else x)
    else if float_lt y x
    then x
    else y

-- Bounds of a coordinate, in degrees.
abbrev pub degrees_90 : Float64
degrees_90 = record { bits = 0x4056800000000000 }

abbrev pub degrees_minus_90 : Float64
degrees_minus_90 = record { bits = 0xc056800000000000 }

abbrev pub degrees_180 : Float64
degrees_180 = record { bits = 0x4066800000000000 }

abbrev pub degrees_minus_180 : Float64
degrees_minus_180 = record { bits = 0xc066800000000000 }

abbrev pub pi : Float64
pi = record { bits = 0x400921fb54442d18 }

-- What rounds: `+`, `-`, `*`, `/`, math.Cos, math.Hypot and Duration.Seconds.
pub record Arithmetic : Type 0 where
  pub plus : Float64 → Float64 → Float64
  pub minus : Float64 → Float64 → Float64
  pub times : Float64 → Float64 → Float64
  pub divided_by : Float64 → Float64 → Float64
  pub cos : Float64 → Float64
  pub hypot : Float64 → Float64 → Float64
  pub seconds : ℤ → Float64

pub float_lt_irrefl : (x : Float64) → float_lt x x ≡ false
unfolding float_lt
float_lt_irrefl x = ground arith

pub float_lt_trans :
    (x y z : Float64) → float_lt x y ≡ true → float_lt y z ≡ true → float_lt x z ≡ true
unfolding float_lt
float_lt_trans x y z h k = ground arith

pub float_le_of_not-lt :
    (x y : Float64)
    → is_nan x ≡ false
    → is_nan y ≡ false
    → float_lt x y ≡ false
    → float_le y x ≡ true
unfolding float_lt float_le
float_le_of_not-lt x y h k l = ground arith

-- Of two numbers the one that is not less is greater or equal.
pub not_lt-le :
    (x y : Float64)
    → is_nan x ≡ false
    → is_nan y ≡ false
    → float_lt x y ≡ false
    → float_le y x ≡ true
unfolding float_lt float_le
not_lt-le x y h k n = ground arith
