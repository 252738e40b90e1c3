-- ===== src/Text/Places.antt =====
-- `{:.d}`, `{:+}` and the widths of the standard library's format, over ASCII.
use sonny.Prelude.{
  ℕ, zero, suc, ◌+◌, ◌-◌, ◌*◌, ◌/◌, ◌%◌, ◌^◌, Bool, List, [], ◌∷◌, ◌++◌, if◌then◌else◌, length,
  replicate,
}
use sonny.Float.Format.{Format}
use sonny.Float.{is_nan, is_infinite, is_neg, units, round_even}
use sonny.Text.{codes, print_uint}

-- The last `d` digits.
unfoldable pub last_digits : ℕ → ℕ → List ℕ
last_digits zero n = []
last_digits (suc d) n = (48 + n / 10 ^ d % 10) ∷ last_digits d n

-- A magnitude to `d` places: the nearest, ties to even.
unfoldable pub print_magnitude : Format → ℕ → ℕ → List ℕ
unfolding print_uint last_digits
print_magnitude f d x =
    if is_infinite f x
    then codes "inf"
    else let n = round_even (units f x * 10 ^ d) (2 ^ f.scale) in
      print_uint (n / 10 ^ d) ++ (46 ∷ last_digits d n)

-- The flag asks for a sign in front of what is not negative; NaN has none.
unfoldable pub print_places : Format → (plus : Bool) → ℕ → ℕ → List ℕ
unfolding print_magnitude
print_places f plus d x =
    if is_nan f x
    then codes "NaN"
    else if is_neg f x
    then 45 ∷ print_magnitude f d x
    else if plus
    then 43 ∷ print_magnitude f d x
    else print_magnitude f d x

-- `{:>w}` and `{:<w}`
unfoldable pub pad_left : ℕ → List ℕ → List ℕ
pad_left w s = replicate (w - length s) 32 ++ s

unfoldable pub pad_right : ℕ → List ℕ → List ℕ
pad_right w s = s ++ replicate (w - length s) 32
