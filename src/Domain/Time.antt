-- ===== src/Domain/Time.antt =====
-- Go's time.Time as the nanoseconds since its zero value (1 January of year 1, UTC), which no
-- timestamp of the service precedes, and its Unix form as PostgreSQL stores it.
use aero_arc_conformance.Prelude.{
  ℕ, ℤ, pos, negsuc, pos_part, neg_part, ◌+◌, ◌-◌, ◌*◌, ◌%◌, ◌^◌, ◌≡◌, Bool, ◌&&◌, ◌==◌, nat_eq,
  ltb, leb, if◌then◌else◌, arith,
}

abbrev pub Time : Type 0
Time = ℕ

-- Nanoseconds, possibly negative.
abbrev pub Duration : Type 0
Duration = ℤ

abbrev pub is_zero : Time → Bool
is_zero t = t == 0

abbrev pub before : Time → Time → Bool
before s t = ltb s t

abbrev pub after : Time → Time → Bool
after s t = ltb t s

-- t.Add(d).
abbrev pub add : Time → Duration → Time
add t d = t + pos_part d - neg_part d

abbrev pub max_duration : ℕ
max_duration = 9223372036854775807

-- t.Sub(s), which saturates at the largest and the smallest Duration.
unfoldable pub sub : Time → Time → Duration
sub t s =
    if leb s t
    then pos (if leb (t - s) max_duration then t - s else max_duration)
    else negsuc (if leb (s - t - 1) max_duration then s - t - 1 else max_duration)

abbrev year_1678 : Time
year_1678 = 52921036800000000000

abbrev unix_epoch : Time
unix_epoch = 62135596800000000000

abbrev year_2262 : Time
year_2262 = 71350243200000000000

-- The years 1678 to 2261, in which UnixNano is defined.
unfoldable pub supported_unix_nanoseconds : Time → Bool
supported_unix_nanoseconds t = leb year_1678 t && ltb t year_2262

abbrev pub UnixNano : Type 0
UnixNano = ℕ

-- t.UnixNano(): an int64 n is held as n + 2 ^ 63, so that its order is that of the numbers.
unfoldable pub unix_nano : Time → UnixNano
unix_nano t = (t + 2 ^ 63 + 4 * 2 ^ 64 - unix_epoch) % 2 ^ 64

-- time.Unix(0, n).UTC().
unfoldable pub from_unix_nano : UnixNano → Time
from_unix_nano n = n + unix_epoch - 2 ^ 63

pub from_unix_nano-unix_nano :
    (t : Time) → supported_unix_nanoseconds t ≡ Bool.true → from_unix_nano (unix_nano t) ≡ t
unfolding supported_unix_nanoseconds unix_nano from_unix_nano
from_unix_nano-unix_nano t h = ground arith

pub unix_nano-lt :
    (s t : Time)
    → supported_unix_nanoseconds s ≡ Bool.true
    → supported_unix_nanoseconds t ≡ Bool.true
    → ltb (unix_nano s) (unix_nano t) ≡ ltb s t
unfolding supported_unix_nanoseconds unix_nano
unix_nano-lt s t h k = ground arith
