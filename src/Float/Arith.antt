-- ===== src/Float/Arith.antt =====
-- Arithmetic rounded to nearest, ties to even, and the `as` conversions. A finite value is counted
-- in units of 2 ^ -scale, so sums are exact before they are rounded. The NaN that an operation
-- makes is the quiet one; the language leaves its payload open.
use sonny.Prelude.{
  ℕ, zero, suc, ◌+◌, ◌-◌, ◌*◌, ◌/◌, ◌%◌, ◌^◌, min, Bool, true, false, not, ◌&&◌, ◌||◌, ltb, leb,
  ◌==◌, if◌then◌else◌,
}
use sonny.Float.Format.{Format, f32, f64, mag, is_neg, is_nan, is_infinite, neg}

-- The number of binary digits; the fuel is a bound on it.
unfoldable pub bit_length : ℕ → ℕ → ℕ
bit_length zero n = 0
bit_length (suc fuel) n = elim (n == 0) [ true ↦ 0 | false ↦ suc (bit_length fuel (n / 2)) ]

unfoldable pub sqrt_floor : ℕ → ℕ → ℕ
sqrt_floor zero n = 0
sqrt_floor (suc fuel) n = elim (n == 0) [
  | true ↦ 0
  | false ↦ let r = 2 * sqrt_floor fuel (n / 4) in if leb ((r + 1) * (r + 1)) n then r + 1 else r
]

unfoldable pub round_even : ℕ → ℕ → ℕ
round_even num den =
    let q = num / den in
    let twice = 2 * (num % den) in
    if ltb twice den then q else if twice == den then q + q % 2 else q + 1

module _ (f : Format) where
  open f use {frac, sign, inf, scale}

  unfoldable pub units : ℕ → ℕ
  units x =
      let m = mag f x in
      if ltb m (2 ^ frac) then m else (2 ^ frac + m % 2 ^ frac) * 2 ^ (m / 2 ^ frac - 1)

  -- The pattern of num / den units, rounded, in a format with no largest number.
  unfoldable pub unbounded : ℕ → ℕ → ℕ
  unbounded num den =
      let k = bit_length 5000 (num / den) - (frac + 1) in
      k * 2 ^ frac + round_even num (den * 2 ^ k)

  -- Past the largest finite pattern it is ∞.
  unfoldable pub round : ℕ → ℕ → ℕ
  round num den = min inf (unbounded num den)

  abbrev pub nan : ℕ
  nan = inf + 2 ^ (frac - 1)

  abbrev pub signed : Bool → ℕ → ℕ
  signed negative m = if negative then sign + m else m

  abbrev pub differ : ℕ → ℕ → Bool
  differ a b = if is_neg f a then not (is_neg f b) else is_neg f b

  unfoldable pub add_finite : ℕ → ℕ → ℕ
  add_finite a b =
      if differ a b
      then (if units a == units b
          then 0
          else if ltb (units b) (units a)
          then signed (is_neg f a) (round (units a - units b) 1)
          else signed (is_neg f b) (round (units b - units a) 1))
      else signed (is_neg f a) (round (units a + units b) 1)

  unfoldable pub add : ℕ → ℕ → ℕ
  add a b =
      if is_nan f a || is_nan f b
      then nan
      else if is_infinite f a
      then (if is_infinite f b && differ a b then nan else a)
      else if is_infinite f b
      then b
      else add_finite a b

  unfoldable pub sub : ℕ → ℕ → ℕ
  sub a b = add a (neg f b)

  unfoldable pub mul : ℕ → ℕ → ℕ
  mul a b =
      if is_nan f a || is_nan f b
      then nan
      else if is_infinite f a || is_infinite f b
      then (if mag f a == 0 || mag f b == 0 then nan else signed (differ a b) inf)
      else signed (differ a b) (round (units a * units b) (2 ^ scale))

  unfoldable pub div : ℕ → ℕ → ℕ
  div a b =
      if is_nan f a || is_nan f b
      then nan
      else if is_infinite f a
      then (if is_infinite f b then nan else signed (differ a b) inf)
      else if is_infinite f b
      then signed (differ a b) 0
      else if mag f b == 0
      then (if mag f a == 0 then nan else signed (differ a b) inf)
      else signed (differ a b) (round (units a * 2 ^ scale) (units b))

  -- A root that is not exact gets a digit that keeps it off the ties.
  unfoldable pub sqrt : ℕ → ℕ
  sqrt a =
      if is_nan f a
      then nan
      else if mag f a == 0
      then a
      else if is_neg f a
      then nan
      else if is_infinite f a
      then a
      else let x = units a * 2 ^ scale in
        let r = sqrt_floor 5000 x in round (2 * r + (if r * r == x then 0 else 1)) 2

  -- `n as f32` for an unsigned integer.
  unfoldable pub of_uint : ℕ → ℕ
  of_uint n = round (n * 2 ^ scale) 1

  -- `x as u8`, `x as u64`: towards zero, held to the range; NaN gives 0.
  unfoldable pub to_uint : ℕ → ℕ → ℕ
  to_uint top x =
      if is_nan f x || is_neg f x
      then 0
      else if is_infinite f x
      then top
      else min top (units x / 2 ^ scale)

-- `x as f32` for an f64.
unfoldable pub narrow : ℕ → ℕ
narrow x =
    if is_nan f64 x
    then nan f32
    else if is_infinite f64 x
    then signed f32 (is_neg f64 x) f32.inf
    else signed f32 (is_neg f64 x) (round f32 (units f64 x) (2 ^ (f64.scale - f32.scale)))

-- To unfold this is to unfold all arithmetic, as a test does.
unfoldable pub arithmetic : Unit {0}
unfolding is_nan is_infinite neg bit_length sqrt_floor round_even units unbounded round add_finite
    add sub mul div sqrt of_uint to_uint narrow
arithmetic = tt
