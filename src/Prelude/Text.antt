-- ===== src/Prelude/Text.antt =====
-- Go strings: order, length in bytes and strings.TrimSpace.
use Prim.Native.Char.{Char, code}
use Prim.Native.Nat.{ℕ, Ordering}
use Prim.Native.String.{String, compare}
use mathlib.Core.Bool.{Bool, true, false, ◌&&◌, ◌||◌}
use mathlib.Core.Logic.{inl, inr}
use mathlib.Core.Path.{◌≡◌, subst}
use text.Mathlib.TextEquality.{eq_iff}
use aero_arc_conformance.Prelude.Tests.{Bool-cases, leb, ◌==◌, if◌then◌else◌, string_eq, nat_eq}

-- unicode.IsSpace.
is_space : Char → Bool
is_space c =
    (leb 9 n && leb n 13)
    || n == 32
    || n == 0x85
    || n == 0xa0
    || n == 0x1680
    || (leb 0x2000 n && leb n 0x200a)
    || n == 0x2028
    || n == 0x2029
    || n == 0x202f
    || n == 0x205f
    || n == 0x3000
  where
    n : ℕ
    n = code c

unfoldable pub trim_left : String → String
unfolding is_space
trim_left String.[] = ""
trim_left (String.◌∷◌ c s) = let rest = trim_left s in if is_space c then rest else String.◌∷◌ c s

unfoldable pub trim_right : String → String
unfolding is_space
trim_right String.[] = ""
trim_right (String.◌∷◌ c s) =
    let rest = trim_right s in if rest == "" && is_space c then "" else String.◌∷◌ c rest

-- strings.TrimSpace.
unfoldable pub trim_space : String → String
unfolding trim_left trim_right
trim_space s = trim_right (trim_left s)

unfoldable pub is_blank : String → Bool
unfolding trim_space
is_blank s = trim_space s == ""

-- Go compares strings by their bytes, which for UTF-8 is the order of the code points.
abbrev pub str_lt : String → String → Bool
str_lt s t = elim (compare s t) [ Ordering.lt ↦ true | _ ↦ false ]

pub not_blank-ne : (s : String) → is_blank s ≡ false → (s == "") ≡ false
unfolding is_blank
not_blank-ne s h = elim (Bool-cases (s == "")) [
  | inr differs ↦ differs
  | inl empty ↦ cc (subst (λ t. is_blank t ≡ false) ((eq_iff s "").0 empty) h)
]
